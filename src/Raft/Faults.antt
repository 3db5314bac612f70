-- ===== src/Raft/Faults.antt =====
-- Where the cluster of src/coordinator/raft_node.rs loses what consensus promises.
use minikv.Errors.{ok, err, internal}
use minikv.Bytes.{Bytes}
use minikv.Raft.Commit.{
  IsNumbered, IsNumbered-append, new_entry, open_replicate_lem, last_index_lem,
}
use minikv.Prelude.{
  length-append, ◌∙◌, ◌++◌, length, sym, ap, ◌%◌, ℕ, ◌+◌, ◌^◌, ◌≤◌, ◌<◌, ◌≡◌, ◌≢◌, arith, [], ◌∷◌,
  some, none, String, string_eq, true, false, refl,
}
use minikv.Raft.Node.{is_leader, last_index, AppendRequest, RaftNode, VoteRequest, leader}
use minikv.Raft.Handlers.{handle_append_entries, handle_request_vote, cast_vote, free_for}
use minikv.Raft.Rounds.{
  open_replicate, close_replicate, open_election, start_election, majority, granted, close_election,
  become_leader, step_down,
}

-- A node that has voted for another candidate in the term of the request refuses it, and stays as it is.
refuse :
    (req : VoteRequest) (n : RaftNode) (v : String)
    → req.term ≡ n.term
    → n.voted_for ≡ some v
    → req.candidate_id ≢ v
    → handle_request_vote req n ≡ (n, record { term = n.term; vote_granted = false })
unfolding handle_request_vote cast_vote free_for
refuse req n v same voted differ = ground (arith, string_eq.eqb_iff v req.candidate_id)

-- In a cluster of two nodes of one term and of different names, both can begin an election, refuse
-- each other's vote, and become the leader of the same term.
pub two_leaders :
    (a b : RaftNode)
    → a.term ≡ b.term
    → a.node_id ≢ b.node_id
    → let (a1, ta, qa) = open_election a in
      let (b1, tb, qb) = open_election b in
      let (b2, rb) = handle_request_vote qa b1 in
      let (a2, ra) = handle_request_vote qb a1 in
      let (a3, a_leads) = close_election ta (some rb ∷ []) a2 in
      let (b3, b_leads) = close_election tb (some ra ∷ []) b2 in
      (rb.vote_granted ≡ false)
      × (ra.vote_granted ≡ false)
      × (a3.role ≡ leader)
      × (b3.role ≡ leader)
      × (a3.term ≡ b3.term)
unfolding open_election start_election close_election become_leader step_down majority granted
two_leaders a b same differ =
    rw
      (
        refuse (open_election a).2 (open_election b).0 b.node_id (ap (λ t. (t + 1) % 2 ^ 64) same)
            refl differ,
        refuse (open_election b).2 (open_election a).0 a.node_id
            (sym (ap (λ t. (t + 1) % 2 ^ 64) same)) refl (λ e. differ (sym e)),
      )
      (refl, refl, refl, refl, ap (λ t. (t + 1) % 2 ^ 64) same)

-- In a cluster of three: a node begins an election and gives, before it ends, its vote for a later
-- term to another candidate. If neither of its peers answers, it goes back to the term of its
-- election and forgets that vote: it then grants a vote of the later term to any second candidate.
pub two_votes :
    (n : RaftNode) (new_term : ℕ) (q1 q2 : VoteRequest)
    → n.term ≤ new_term
    → new_term < q1.term
    → q2.term ≡ q1.term
    → let (n1, r1) = handle_request_vote q1 n in
      let (n2, wins) = close_election new_term (none ∷ none ∷ []) n1 in
      let (n3, r2) = handle_request_vote q2 n2 in
      (r1.vote_granted ≡ true) × (r2.vote_granted ≡ true)
unfolding open_election start_election handle_request_vote cast_vote free_for close_election
    become_leader step_down majority granted
two_votes n new_term q1 q2 h g e = ground arith

follower_commits :
    (req : AppendRequest) (f : RaftNode) (index : ℕ)
    → f.term ≤ req.term
    → req.prev_log_index ≤ length f.log
    → f.commit_index < index
    → req.leader_commit ≡ index
    → last_index (f.log ++ req.entries) ≡ index
    → (handle_append_entries req f).0.commit_index ≡ index
unfolding handle_append_entries
follower_commits req f index t p c l e = ground arith

-- In a cluster of three, a leader with a log numbered from 1 sends a new entry to a follower with the
-- same log, not of a later term and with its commit index within the log. The follower commits the
-- entry at once, although the leader, if no answer reaches it, does not commit it and reports an error.
pub commits_without_majority :
    (payload : Bytes) (n f : RaftNode)
    → is_leader n ≡ true
    → IsNumbered 0 n.log
    → length n.log + 1 < 2 ^ 64
    → f.term ≤ n.term
    → f.log ≡ n.log
    → f.commit_index ≤ length n.log
    → (m : RaftNode) × (req : AppendRequest) × (open_replicate payload n ≡ ok (m, req))
      × ((handle_append_entries req f).0.commit_index ≡ length n.log + 1)
      × (close_replicate (length n.log + 1) (none ∷ none ∷ []) m
          ≡ (m, err (internal "Raft: no majority for commit")))
      × (m.commit_index ≡ n.commit_index)
unfolding close_replicate new_entry
commits_without_majority payload n f l h b t same c =
    let e = new_entry payload n in
    (
      _,
      _,
      open_replicate_lem payload n l h b,
      follower_commits _ f (length n.log + 1) t (rw same (omega arith)) (omega arith) refl (
          rw same (
            last_index_lem (n.log ++ e ∷ [])
              (IsNumbered-append 0 n.log (e ∷ []) h (omega arith, tt))
            ∙ length-append n.log (e ∷ []))),
      refl,
      refl,
    )
