-- ===== src/Config.antt =====
-- src/common/config.rs: the configuration of a node, its defaults and its check. Addresses and paths are
-- their text, durations milliseconds. How serde and the config crate read a configuration is not
-- modelled.
use minikv.Prelude.{
  ℕ, ◌*◌, Bool, true, Option, none, some, List, [], ◌∷◌, ◌==◌, nat_eq, list_eq, length,
  if◌then◌else◌,
}
use minikv.Bytes.{Bytes}
use minikv.Text.{ascii}
use minikv.Errors.{Result, ok, err, invalid_config}
use minikv.Wal.{WalSyncPolicy, always}

pub data NodeRole : Type 0 where
  coordinator volume : NodeRole

pub record CoordinatorConfig : Type 0 where
  pub bind_addr : Bytes
  pub grpc_addr : Bytes
  pub db_path : Bytes
  pub peers : List Bytes
  pub replicas : ℕ
  pub election_timeout_ms : ℕ
  pub heartbeat_interval_ms : ℕ
  pub snapshot_threshold : ℕ
  pub num_shards : ℕ
  pub tls_cert_path : Option Bytes
  pub tls_key_path : Option Bytes

pub record VolumeConfig : Type 0 where
  pub bind_addr : Bytes
  pub grpc_addr : Bytes
  pub data_path : Bytes
  pub wal_path : Bytes
  pub coordinators : List Bytes
  pub max_blob_size : ℕ
  pub compaction_interval_secs : ℕ
  pub compaction_threshold : ℕ
  pub heartbeat_interval_secs : ℕ
  pub enable_bloom : Bool
  pub enable_snapshots : Bool
  pub wal_sync : WalSyncPolicy

pub record RuntimeConfig : Type 0 where
  pub request_timeout : ℕ
  pub connect_timeout : ℕ
  pub max_concurrent_requests : ℕ
  pub max_retries : ℕ
  pub retry_delay : ℕ

pub record Config : Type 0 where
  pub node_id : Bytes
  pub role : NodeRole
  pub coordinator_config : Option CoordinatorConfig
  pub volume_config : Option VolumeConfig
  pub log_level : Bytes

abbrev default_replicas : ℕ
default_replicas = 3

abbrev default_election_timeout : ℕ
default_election_timeout = 300

abbrev default_heartbeat_interval : ℕ
default_heartbeat_interval = 50

abbrev default_snapshot_threshold : ℕ
default_snapshot_threshold = 10000

abbrev default_num_shards : ℕ
default_num_shards = 256

abbrev default_max_blob_size : ℕ
default_max_blob_size = 1024 * 1024 * 1024

abbrev default_compaction_interval : ℕ
default_compaction_interval = 300

abbrev default_compaction_threshold : ℕ
default_compaction_threshold = 10

abbrev default_volume_heartbeat : ℕ
default_volume_heartbeat = 10

unfoldable pub default_coordinator : CoordinatorConfig
default_coordinator = record {
  bind_addr = ascii "0.0.0.0:5000";
  grpc_addr = ascii "0.0.0.0:5001";
  db_path = ascii "./coord-data";
  peers = [];
  replicas = default_replicas;
  election_timeout_ms = default_election_timeout;
  heartbeat_interval_ms = default_heartbeat_interval;
  snapshot_threshold = default_snapshot_threshold;
  num_shards = default_num_shards;
  tls_cert_path = none;
  tls_key_path = none;
}

unfoldable pub default_volume : VolumeConfig
default_volume = record {
  bind_addr = ascii "0.0.0.0:6000";
  grpc_addr = ascii "0.0.0.0:6001";
  data_path = ascii "./vol-data";
  wal_path = ascii "./vol-wal";
  coordinators = ascii "http://localhost:5000" ∷ [];
  max_blob_size = default_max_blob_size;
  compaction_interval_secs = default_compaction_interval;
  compaction_threshold = default_compaction_threshold;
  heartbeat_interval_secs = default_volume_heartbeat;
  enable_bloom = true;
  enable_snapshots = true;
  wal_sync = always;
}

unfoldable pub default_runtime : RuntimeConfig
default_runtime = record {
  request_timeout = 30 * 1000;
  connect_timeout = 5 * 1000;
  max_concurrent_requests = 1000;
  max_retries = 3;
  retry_delay = 100;
}

-- The configuration that the role needs is there.
unfoldable pub role_section : Config → Result (Unit {0})
role_section c = elim c.role [
  | coordinator ↦ elim c.coordinator_config [
    | none ↦ err (invalid_config "coordinator config required")
    | some section ↦ ok tt
  ]
  | volume ↦ elim c.volume_config [
    | none ↦ err (invalid_config "volume config required")
    | some section ↦ ok tt
  ]
]

unfoldable pub validate : Config → Result (Unit {0})
unfolding role_section
validate c =
    if length c.node_id == 0 then err (invalid_config "node_id is required") else role_section c
