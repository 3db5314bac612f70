-- ===== src/Raft/Handlers.antt =====
-- src/coordinator/raft_node.rs: the methods that do not await, each a function from the state.
use minikv.Prelude.{
  ℕ, min, String, Bool, true, false, Option, none, some, List, [], ◌∷◌, ◌++◌, map, ltb, leb, ◌==◌,
  string_eq, length, if◌then◌else◌,
}
use minikv.Bytes.{Bytes}
use minikv.Raft.Node.{
  LogEntry, VoteRequest, VoteResponse, AppendRequest, AppendResponse, RaftNode, last_index,
  last_term,
}

-- The handler of a snapshot from the leader, `save_snapshot` included.
unfoldable pub above : ℕ → List LogEntry → List LogEntry
above i [] = []
above i (e ∷ es) = let rest = above i es in if ltb i e.index then e ∷ rest else rest

unfoldable pub apply_snapshot : Bytes → ℕ → ℕ → RaftNode → RaftNode
unfolding above
apply_snapshot bytes last_included_index last_included_term n = record n {
  snapshot = some bytes;
  log = above last_included_index n.log;
  commit_index = last_included_index;
  last_applied = last_included_index;
  term = last_included_term;
}

-- `recover` applies nothing yet; it moves the applied index.
unfoldable pub recover : RaftNode → RaftNode
recover n = record n { last_applied = n.commit_index }

-- The heartbeats, one to each peer. Their answers are dropped.
unfoldable pub send_heartbeats : RaftNode → List (String × AppendRequest)
send_heartbeats n =
    let prev_log_index = last_index n.log in
    map
      (λ peer. (
        peer,
        record {
          term = n.term;
          leader_id = n.node_id;
          prev_log_index = prev_log_index;
          prev_log_term = last_term n.log;
          entries = [];
          leader_commit = prev_log_index;
        },
      ))
      n.peers

unfoldable pub free_for : String → Option String → Bool
free_for candidate_id none = true
free_for candidate_id (some v) = v == candidate_id

-- The part of `handle_request_vote` and of `grant_vote` after the test of the term.
unfoldable pub cast_vote : ℕ → String → RaftNode → RaftNode × Bool
unfolding free_for
cast_vote term candidate_id n =
    let m = if ltb n.term term then record n { term = term; voted_for = none } else n in
    if free_for candidate_id m.voted_for
    then (record m { voted_for = some candidate_id }, true)
    else (m, false)

unfoldable pub grant_vote : ℕ → String → RaftNode → RaftNode × Bool
unfolding cast_vote
grant_vote term candidate_id n =
    if ltb term n.term then (n, false) else cast_vote term candidate_id n

unfoldable pub handle_request_vote : VoteRequest → RaftNode → RaftNode × VoteResponse
unfolding cast_vote
handle_request_vote req n =
    let (m, vote_granted) =
      if ltb req.term n.term then (n, false) else cast_vote req.term req.candidate_id n in
    (m, record { term = m.term; vote_granted = vote_granted })

unfoldable pub handle_append_entries : AppendRequest → RaftNode → RaftNode × AppendResponse
handle_append_entries req n =
    if ltb req.term n.term
    then (n, record { term = n.term; success = false; conflict_index = 0 })
    else (let m = if ltb n.term req.term then record n { term = req.term } else n in
        if leb req.prev_log_index (length m.log)
        then (let log = m.log ++ req.entries in
            let commit =
              if ltb m.commit_index req.leader_commit
              then min req.leader_commit (last_index log)
              else m.commit_index in
            (
              record m { log = log; commit_index = commit },
              record { term = m.term; success = true; conflict_index = 0 },
            ))
        else (m, record { term = m.term; success = false; conflict_index = length m.log }))
