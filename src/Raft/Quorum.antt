-- ===== src/Raft/Quorum.antt =====
-- The majority of src/coordinator/raft_node.rs, as a quorum of the cluster: `peers` and the node itself.
use minikv.Prelude.{ℕ, ◌+◌, ◌%◌, ◌≤◌, ◌<◌, ◌≡◌, arith, length, List, Option, some, none}
use minikv.Raft.Node.{RaftNode, VoteResponse, leader, follower}
use minikv.Raft.Rounds.{majority, granted, close_election, become_leader, step_down}

-- Two majorities of a cluster of an odd number of nodes have a node in common: their sizes add up to
-- more than the cluster. In a cluster of an even number they add up to the cluster only, so two
-- majorities can be disjoint.
pub majority_overlap :
    (peers : ℕ)
    → ((peers + 1) % 2 ≡ 1 → peers + 1 < majority peers + majority peers)
      × ((peers + 1) % 2 ≡ 0 → majority peers + majority peers ≡ peers + 1)
unfolding majority
majority_overlap peers = ground arith

-- A candidate becomes the leader exactly if its own vote and those of its peers are a majority, and
-- then keeps its term and its vote; else it is a follower without a leader and without a vote, in the
-- term of the election.
pub close_election_lem :
    (new_term : ℕ) (answers : List (Option VoteResponse)) (n : RaftNode)
    → let m = (close_election new_term answers n).0 in
      (majority (length answers) ≤ 1 + granted answers
        → (m.role ≡ leader)
          × (m.leader_id ≡ some n.node_id)
          × (m.term ≡ n.term)
          × (m.voted_for ≡ n.voted_for))
      × (1 + granted answers < majority (length answers)
          → (m.role ≡ follower) × (m.leader_id ≡ none) × (m.term ≡ new_term) × (m.voted_for ≡ none))
unfolding close_election become_leader step_down
close_election_lem new_term answers n = ground arith
