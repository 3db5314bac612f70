-- ===== src/Raft/Node.antt =====
-- src/common/raft.rs and the state of src/coordinator/raft_node.rs: the messages between the nodes
-- of the cluster, and one node, where each mutex is a field.
use minikv.Prelude.{ℕ, String, Bool, true, false, Option, none, some, List, [], string_eq, last}
use minikv.Bytes.{Bytes}

pub data RaftRole : Type 0 where
  follower candidate leader : RaftRole

pub record LogEntry : Type 0 where
  pub term : ℕ
  pub index : ℕ
  pub payload : Bytes

pub record VoteRequest : Type 0 where
  pub term : ℕ
  pub candidate_id : String
  pub last_log_index : ℕ
  pub last_log_term : ℕ

pub record VoteResponse : Type 0 where
  pub term : ℕ
  pub vote_granted : Bool

pub record AppendRequest : Type 0 where
  pub term : ℕ
  pub leader_id : String
  pub prev_log_index : ℕ
  pub prev_log_term : ℕ
  pub entries : List LogEntry
  pub leader_commit : ℕ

pub record AppendResponse : Type 0 where
  pub term : ℕ
  pub success : Bool
  pub conflict_index : ℕ

pub record RaftNode : Type 0 where
  pub node_id : String
  pub role : RaftRole
  pub term : ℕ
  pub voted_for : Option String
  pub leader_id : Option String
  pub log : List LogEntry
  pub peers : List String
  pub commit_index : ℕ
  pub last_applied : ℕ
  pub snapshot : Option Bytes

unfoldable pub new : String → RaftNode
new node_id = record {
  node_id = node_id;
  role = follower;
  term = 0;
  voted_for = none;
  leader_id = none;
  log = [];
  peers = [];
  commit_index = 0;
  last_applied = 0;
  snapshot = none;
}

unfoldable pub is_leader : RaftNode → Bool
is_leader n = elim n.role [ leader ↦ true | _ ↦ false ]

abbrev pub last_index : List LogEntry → ℕ
last_index log = elim (last log) [ none ↦ 0 | some e ↦ e.index ]

abbrev pub last_term : List LogEntry → ℕ
last_term log = elim (last log) [ none ↦ 0 | some e ↦ e.term ]
