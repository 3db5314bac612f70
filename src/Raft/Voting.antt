-- ===== src/Raft/Voting.antt =====
-- What src/coordinator/raft_node.rs promises of votes, as long as a node does not step down and takes
-- no snapshot.
use minikv.Prelude.{
  if◌then◌else◌, ℕ, ◌+◌, ◌^◌, ◌<◌, ◌≤◌, ◌≡◌, true, some, arith, ◌⊎◌, inr, String, string_eq, ltb,
}
use minikv.Raft.Node.{VoteRequest, RaftNode, AppendRequest}
use minikv.Raft.Rounds.{open_election, start_election, become_leader}
use minikv.Raft.Handlers.{
  recover, free_for, cast_vote, grant_vote, handle_request_vote, handle_append_entries,
}

-- Since the term `t` the node has voted for `c` in it, or it has left that term behind.
abbrev pub HasVoted : ℕ → String → RaftNode → Type 0
HasVoted t c n = (t < n.term) ⊎ ((n.term ≡ t) × (n.voted_for ≡ some c))

-- A node that answers a vote request never goes back to an earlier term, and the answer carries the
-- term that the node then has.
pub handle_request_vote-term :
    (req : VoteRequest) (n : RaftNode)
    → (n.term ≤ (handle_request_vote req n).0.term)
      × ((handle_request_vote req n).1.term ≡ (handle_request_vote req n).0.term)
unfolding handle_request_vote cast_vote free_for
handle_request_vote-term req n = ground arith

-- A vote that is granted is of the node's term or a later one; the node then has the term of the
-- request and the candidate as its vote.
pub handle_request_vote_granted :
    (req : VoteRequest) (n : RaftNode)
    → (handle_request_vote req n).1.vote_granted ≡ true
    → (n.term ≤ req.term)
      × ((handle_request_vote req n).0.term ≡ req.term)
      × ((handle_request_vote req n).0.voted_for ≡ some req.candidate_id)
unfolding handle_request_vote cast_vote free_for
handle_request_vote_granted req n h = ground arith

cast_vote-HasVoted :
    (t : ℕ) (c : String) (term : ℕ) (candidate : String) (n : RaftNode)
    → n.term ≤ term
    → HasVoted t c n
    → HasVoted t c (cast_vote term candidate n).0
unfolding cast_vote free_for
cast_vote-HasVoted t c term candidate n le h = ground (arith, string_eq.eqb_iff c candidate)

pub handle_request_vote_twice :
    (t : ℕ) (c : String) (req : VoteRequest) (n : RaftNode)
    → HasVoted t c n
    → req.term ≡ t
    → (handle_request_vote req n).1.vote_granted ≡ true
    → req.candidate_id ≡ c
unfolding handle_request_vote cast_vote free_for
handle_request_vote_twice t c req n h same g = ground (arith, string_eq.eqb_iff c req.candidate_id)

-- Neither a heartbeat nor new entries touch the vote, and the term only grows.
handle_append_entries-voted_for :
    (req : AppendRequest) (n : RaftNode)
    → ((handle_append_entries req n).0.voted_for ≡ n.voted_for)
      × ((handle_append_entries req n).0.term ≡ (if ltb n.term req.term then req.term else n.term))
unfolding handle_append_entries
handle_append_entries-voted_for req n = ground arith

handle_append_entries-HasVoted :
    (t : ℕ) (c : String) (req : AppendRequest) (n : RaftNode)
    → HasVoted t c n
    → HasVoted t c (handle_append_entries req n).0
handle_append_entries-HasVoted t c req n h = ground (arith, handle_append_entries-voted_for req n)

handle_request_vote-HasVoted :
    (t : ℕ) (c : String) (req : VoteRequest) (n : RaftNode)
    → HasVoted t c n
    → HasVoted t c (handle_request_vote req n).0
unfolding handle_request_vote
handle_request_vote-HasVoted t c req n h =
    ground (arith, cast_vote-HasVoted t c req.term req.candidate_id n)

grant_vote-HasVoted :
    (t : ℕ) (c : String) (term : ℕ) (candidate : String) (n : RaftNode)
    → HasVoted t c n
    → HasVoted t c (grant_vote term candidate n).0
unfolding grant_vote
grant_vote-HasVoted t c term candidate n h = ground (arith, cast_vote-HasVoted t c term candidate n)

-- The steps of a node that neither steps down nor takes a snapshot.
pub data Step : RaftNode → RaftNode → Type 0 where
  request_vote : (req : VoteRequest) (n : RaftNode) → Step n (handle_request_vote req n).0
  grant :
      (term : ℕ) (candidate_id : String) (n : RaftNode) → Step n (grant_vote term candidate_id n).0
  append_entries : (req : AppendRequest) (n : RaftNode) → Step n (handle_append_entries req n).0
  elect : (n : RaftNode) → n.term + 1 < 2 ^ 64 → Step n (open_election n).0
  lead : (n : RaftNode) → Step n (become_leader n)
  recovered : (n : RaftNode) → Step n (recover n)

pub data Reaches : RaftNode → RaftNode → Type 0 where
  here : (n : RaftNode) → Reaches n n
  next : (n m o : RaftNode) → Step n m → Reaches m o → Reaches n o

Step-HasVoted : (t : ℕ) (c : String) (n m : RaftNode) → Step n m → HasVoted t c n → HasVoted t c m
unfolding open_election start_election become_leader recover
Step-HasVoted t c _ _ (request_vote req n) h = handle_request_vote-HasVoted t c req n h
Step-HasVoted t c _ _ (grant term candidate n) h = grant_vote-HasVoted t c term candidate n h
Step-HasVoted t c _ _ (append_entries req n) h = handle_append_entries-HasVoted t c req n h
Step-HasVoted t c _ _ (elect n fits) h = ground arith
Step-HasVoted t c _ _ (lead n) h = h
Step-HasVoted t c _ _ (recovered n) h = h

pub Reaches-HasVoted :
    (t : ℕ) (c : String) (n m : RaftNode) → Reaches n m → HasVoted t c n → HasVoted t c m
Reaches-HasVoted t c _ _ (here n) h = h
Reaches-HasVoted t c _ _ (next n m o s r) h = Reaches-HasVoted t c m o r (Step-HasVoted t c n m s h)

-- A node grants its vote to one candidate a term. When it has granted the request `req`, and after
-- any vote requests, append requests, elections it begins (below the last term that 64 bits hold),
-- wins and recoveries it grants the request `req2` of the same term, both are of the same candidate.
pub one_vote_per_term :
    (req req2 : VoteRequest) (n m : RaftNode)
    → (handle_request_vote req n).1.vote_granted ≡ true
    → Reaches (handle_request_vote req n).0 m
    → (handle_request_vote req2 m).1.vote_granted ≡ true
    → req2.term ≡ req.term
    → req2.candidate_id ≡ req.candidate_id
one_vote_per_term req req2 n m g r g2 same =
    let voted = handle_request_vote_granted req n g in
    handle_request_vote_twice req.term req.candidate_id req2 m
      (Reaches-HasVoted req.term req.candidate_id _ m r (inr (voted.1, voted.2))) same g2
