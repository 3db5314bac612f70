-- ===== src/Errors.antt =====
-- src/common/error.rs: the error type, the result that carries it, and its retry and HTTP classes.
-- A third-party error (I/O, gRPC, RocksDB) is carried as its kind or as the text that it prints,
-- and the two sums of `ChecksumMismatch` as the numbers that the source formats in hexadecimal.
use minikv.Prelude.{ℕ, String, Bool, true, false}

pub data IoKind : Type 0 where
  unexpected_eof other_io : IoKind

pub data Error : Type 0 where
  io : IoKind → Error
  not_found corrupted : String → Error
  checksum_mismatch : ℕ → ℕ → Error
  wal : String → Error
  not_leader raft : String → Error
  consensus_timeout : Error
  prepare_failed commit_failed : String → String → Error
  no_healthy_volumes : Error
  insufficient_replicas : ℕ → ℕ → Error
  shard_not_found : ℕ → Error
  grpc http connection_failed rocks_db metadata_corrupted invalid_config : String → Error
  verify_failed repair_failed compact_failed internal timeout other : String → Error

pub data Result {ℓ} (A : Type ℓ) : Type ℓ where
  ok : A → Result A
  err : Error → Result A

unfoldable pub is_retryable : Error → Bool
is_retryable (timeout _) = true
is_retryable (connection_failed _) = true
is_retryable consensus_timeout = true
is_retryable (not_leader _) = true
is_retryable no_healthy_volumes = true
is_retryable _ = false

-- The status codes by number.
unfoldable pub to_http_status : Error → ℕ
to_http_status (not_found _) = 404
to_http_status (not_leader _) = 307
to_http_status (invalid_config _) = 400
to_http_status (timeout _) = 408
to_http_status consensus_timeout = 408
to_http_status no_healthy_volumes = 503
to_http_status (insufficient_replicas _ _) = 503
to_http_status _ = 500

infixl 5 ◌>>=◌ ◌>>◌
abbrev pub ◌>>=◌ {ℓ κ} : {A : Type ℓ} {B : Type κ} → Result A → (A → Result B) → Result B
err e >>= f = err e
ok a >>= f = f a

abbrev pub ◌>>◌ {ℓ} : {B : Type ℓ} → Result (Unit {0}) → Result B → Result B
m >> k = m >>= λ _. k
