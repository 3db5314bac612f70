-- ===== src/Raft/Rounds.antt =====
-- src/coordinator/raft_node.rs: the changes of role, and the methods that ask the peers. These are cut
-- at their awaits, since other handlers run there: `open_` is the part before, `close_` the part after.
-- What a peer answers is an argument, `none` where the call fails.
use minikv.Prelude.{
  ℕ, zero, suc, ◌+◌, ◌-◌, ◌/◌, ◌%◌, ◌^◌, String, Bool, true, false, Option, none, some, List, [],
  ◌∷◌, ◌++◌, ltb, leb, string_eq, last, length, if◌then◌else◌,
}
use minikv.Errors.{Result, ok, err, not_leader, internal}
use minikv.Bytes.{Bytes}
use minikv.Raft.Node.{
  follower, candidate, leader, LogEntry, VoteRequest, VoteResponse, AppendRequest, AppendResponse,
  RaftNode, is_leader, last_index, last_term,
}

unfoldable pub become_leader : RaftNode → RaftNode
become_leader n = record n { role = leader; leader_id = some n.node_id }

unfoldable pub step_down : ℕ → Option String → RaftNode → RaftNode
step_down new_term leader_id n = record n {
  role = follower;
  term = new_term;
  leader_id = leader_id;
  voted_for = none;
}

unfoldable pub start_election : RaftNode → RaftNode × ℕ
start_election n =
    let new_term = (n.term + 1) % 2 ^ 64 in
    (
      record n { term = new_term; role = candidate; voted_for = some n.node_id; leader_id = none },
      new_term,
    )

-- `(peers.len() + 1).div_ceil(2)`
unfoldable pub majority : ℕ → ℕ
majority peers = (peers + 1 + 1) / 2

-- `start_election_and_collect_votes` up to its first await: the node, the new term and the request
-- that goes to every peer.
unfoldable pub open_election : RaftNode → RaftNode × ℕ × VoteRequest
unfolding start_election
open_election n =
    let (m, new_term) = start_election n in
    (
      m,
      new_term,
      record {
        term = new_term;
        candidate_id = m.node_id;
        last_log_index = last_index m.log;
        last_log_term = last_term m.log;
      },
    )

-- The votes of the peers that answered.
unfoldable pub granted : List (Option VoteResponse) → ℕ
granted [] = 0
granted (none ∷ rs) = granted rs
granted (some r ∷ rs) = let rest = granted rs in if r.vote_granted then rest + 1 else rest

-- And after its last await, with the answers of all peers.
unfoldable pub close_election : ℕ → List (Option VoteResponse) → RaftNode → RaftNode × Bool
unfolding become_leader step_down granted majority
close_election new_term answers n =
    if leb (majority (length answers)) (1 + granted answers)
    then (become_leader n, true)
    else (step_down new_term none n, false)

-- The index of the next entry.
abbrev pub next_index : List LogEntry → ℕ
next_index log = elim (last log) [ none ↦ 1 | some e ↦ (e.index + 1) % 2 ^ 64 ]

-- `replicate` up to its first await: the entry at the end of the log, and the request for the peers.
unfoldable pub open_replicate : Bytes → RaftNode → Result (RaftNode × AppendRequest)
unfolding is_leader
open_replicate payload n =
    if is_leader n
    then (let index = next_index n.log in
        let entry : LogEntry = record { term = n.term; index = index; payload = payload } in
        ok (
          record n { log = n.log ++ entry ∷ [] },
          record {
            term = n.term;
            leader_id = n.node_id;
            prev_log_index = (index + 2 ^ 64 - 1) % 2 ^ 64;
            prev_log_term = n.term;
            entries = entry ∷ [];
            leader_commit = index;
          },
        ))
    else err (not_leader (elim n.leader_id [ none ↦ "unknown" | some l ↦ l ]))

unfoldable pub acked : List (Option AppendResponse) → ℕ
acked [] = 0
acked (none ∷ rs) = acked rs
acked (some r ∷ rs) = let rest = acked rs in if r.success then rest + 1 else rest

-- `while *applied < *commit { *applied += 1; }`, with the rounds that it has left.
unfoldable pub apply_loop : ℕ → ℕ → ℕ → ℕ
apply_loop zero applied commit = applied
apply_loop (suc rounds) applied commit =
    let next = apply_loop rounds (applied + 1) commit in
    if ltb applied commit then next else applied

-- And after its last await, with the answers of all peers.
unfoldable pub close_replicate :
    ℕ → List (Option AppendResponse) → RaftNode → RaftNode × Result (Unit {0})
unfolding acked majority apply_loop
close_replicate index answers n =
    if leb (majority (length answers)) (1 + acked answers)
    then (
      record n { commit_index = index; last_applied = apply_loop index n.last_applied index },
      ok tt,
    )
    else (n, err (internal "Raft: no majority for commit"))
