-- ===== src/Raft/Service.antt =====
-- src/coordinator/grpc.rs: what the gRPC service of a coordinator answers to the messages of the cluster.
-- It holds no node: its term is a constant, and nothing is kept of a request.
use minikv.Prelude.{
  List, length-append, ℕ, zero, suc, ◌+◌, ◌/◌, ◌%◌, ◌^◌, ◌<◌, ◌≤◌, ◌≡◌, ◌≢◌, refl, ap, arith, true,
  Option, some, leb, le→leb, length, replicate, length-replicate,
}
use minikv.Errors.{ok}
use minikv.Bytes.{Bytes}
use minikv.Raft.Node.{
  RaftNode, LogEntry, VoteRequest, VoteResponse, AppendRequest, AppendResponse, leader, is_leader,
}
use minikv.Raft.Commit.{IsNumbered, new_entry, open_replicate_lem}
use minikv.Raft.Rounds.{
  open_election, start_election, close_election, become_leader, majority, granted, open_replicate,
  close_replicate, acked, apply_loop,
}

abbrev current_term : ℕ
current_term = 1

unfoldable pub request_vote : VoteRequest → VoteResponse
request_vote vote_req = record {
  term = current_term;
  vote_granted = leb current_term vote_req.term;
}

unfoldable pub append_entries : AppendRequest → AppendResponse
append_entries append_req = record {
  term = current_term;
  success = leb current_term append_req.term;
  conflict_index = 0;
}

granted-replicate :
    (n : ℕ) (r : VoteResponse) → r.vote_granted ≡ true → granted (replicate n (some r)) ≡ n
unfolding granted
granted-replicate zero r h = refl
granted-replicate (suc n) r h = ground (arith, granted-replicate n r h)

acked-replicate : (n : ℕ) (r : AppendResponse) → r.success ≡ true → acked (replicate n (some r)) ≡ n
unfolding acked
acked-replicate zero r h = refl
acked-replicate (suc n) r h = ground (arith, acked-replicate n r h)

-- Every candidate of a term above 0 wins, with any number of peers that the service answers for.
wins :
    (peers new_term : ℕ) (req : VoteRequest) (n : RaftNode)
    → 1 ≤ req.term
    → close_election new_term (replicate peers (some (request_vote req))) n
      ≡ (become_leader n, true)
unfolding close_election request_vote majority
wins peers new_term req n h =
    let all = granted-replicate peers (request_vote req) (le→leb 1 req.term h) in
    let size = length-replicate {A = Option VoteResponse} peers (some (request_vote req)) in
    rw (size, all, le→leb ((peers + 1 + 1) / 2) (1 + peers) (omega arith), close_election) refl

-- Two nodes of one term below the last that 64 bits hold, of different names and each with any number of
-- peers, ask for votes. Where the gRPC service answers, every peer grants both of them its vote, and
-- both become the leader of the same term.
pub split_brain :
    (peers : ℕ) (a b : RaftNode)
    → a.term ≡ b.term
    → a.term + 1 < 2 ^ 64
    → a.node_id ≢ b.node_id
    → let (a1, ta, qa) = open_election a in
      let (b1, tb, qb) = open_election b in
      let (a2, a_leads) = close_election ta (replicate peers (some (request_vote qa))) a1 in
      let (b2, b_leads) = close_election tb (replicate peers (some (request_vote qb))) b1 in
      (a_leads ≡ true)
      × (b_leads ≡ true)
      × (a2.role ≡ leader)
      × (b2.role ≡ leader)
      × (a2.term ≡ b2.term)
      × (a2.node_id ≢ b2.node_id)
unfolding open_election start_election become_leader
split_brain peers a b same fits differ =
    rw
      (
        wins peers (open_election a).1 (open_election a).2 (open_election a).0 (omega arith),
        wins peers (open_election b).1 (open_election b).2 (open_election b).0 (omega arith),
      )
      (refl, refl, refl, refl, ap (λ t. (t + 1) % 2 ^ 64) same, differ)

committed :
    (peers index : ℕ) (req : AppendRequest) (n : RaftNode)
    → 1 ≤ req.term
    → close_replicate index (replicate peers (some (append_entries req))) n ≡ (
      record n { commit_index = index; last_applied = apply_loop index n.last_applied index },
      ok tt,
    )
unfolding close_replicate append_entries majority
committed peers index req n h =
    let all = acked-replicate peers (append_entries req) (le→leb 1 req.term h) in
    let size = length-replicate {A = Option AppendResponse} peers (some (append_entries req)) in
    rw (size, all, le→leb ((peers + 1 + 1) / 2) (1 + peers) (omega arith), close_replicate) refl

report :
    (peers index : ℕ) (req : AppendRequest) (m : RaftNode)
    → 1 ≤ req.term
    → length m.log ≡ index
    → let (after, result) = close_replicate index (replicate peers (some (append_entries req))) m in
      (result ≡ ok tt) × (after.commit_index ≡ index) × (length after.log ≡ index)
report peers index req m h e = rw (committed peers index req m h) (refl, refl, e)

-- The answer does not depend on the entries.
append_entries_blind :
    (req : AppendRequest) (others : List LogEntry)
    → append_entries (record req { entries = others }) ≡ append_entries req
unfolding append_entries
append_entries_blind req others = refl

-- A leader of a term above 0 with a log numbered from 1 and any number of peers replicates an entry.
-- Where the gRPC service answers, the leader commits it and reports no error; and the service answers
-- every request alike whatever entries it has, so that it would answer the same to one without the entry.
pub commits_alone :
    (peers : ℕ) (payload : Bytes) (n : RaftNode)
    → is_leader n ≡ true
    → IsNumbered 0 n.log
    → length n.log + 1 < 2 ^ 64
    → 1 ≤ n.term
    → (m : RaftNode) × (req : AppendRequest) × (open_replicate payload n ≡ ok (m, req))
      × (let (after, result) =
            close_replicate (length n.log + 1) (replicate peers (some (append_entries req))) m in
          (result ≡ ok tt)
          × (after.commit_index ≡ length n.log + 1)
          × (length after.log ≡ length n.log + 1))
      × ((others : List LogEntry)
          → append_entries (record req { entries = others }) ≡ append_entries req)
unfolding new_entry
commits_alone peers payload n l h b t = (
  _,
  _,
  open_replicate_lem payload n l h b,
  report peers (length n.log + 1) _ _ t (length-append n.log _),
  append_entries_blind _,
)
