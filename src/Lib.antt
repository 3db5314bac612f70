-- ===== src/Lib.antt =====
-- minikv: the storage engine of a volume, and the consensus, the access control and the handlers of its
-- coordinators.
--
-- A volume keeps its values in append-only segment files (src/volume/blob.rs). Its index
-- (src/volume/index.rs) says where the value of a key lies and when it expires; every change is in the
-- write-ahead log (src/volume/wal.rs) first, and a Bloom filter answers most reads of absent keys. The
-- coordinators agree on a leader and a log by messages (src/coordinator/raft_node.rs), and limit what a
-- tenant may use (src/common/quota.rs). Their HTTP handlers (src/coordinator/http.rs) keep objects in a
-- key-value backend (src/common/storage.rs) and metadata in RocksDB (src/coordinator/metadata.rs); layers
-- in front decide who gets through (src/common/auth.rs, src/common/auth_middleware.rs). Values can be
-- encrypted at rest (src/common/encryption.rs). A limiter refuses clients that ask too often
-- (src/common/ratelimit.rs), and histograms and counters record what was asked (src/common/metrics.rs).
-- The nodes call each other over gRPC (src/coordinator/grpc.rs, src/volume/grpc.rs).
--
-- Which file models what:
--   Wal: src/volume/wal.rs. append_put, append_delete, replay, truncate and sync keep their names;
--     open_wal is Wal::open, read_entry is read_entry_internal with what follows the magic in
--     after_magic and read_fields. Its children are about the format (Format, Reading), the replay
--     (Replay), crashes (Crash, Torn) and the open log (Log, Reopen).
--   Index: src/volume/index.rs. insert_key, get and remove_key are insert, get and remove; the snapshot
--     file is save_snapshot and load_snapshot. Children: Expiry and Snapshot.
--   Blob: src/volume/blob.rs. Format is write_blob_to_segment and read_blob, Store the operations;
--     RoundTrip, Keys and Removal are about them. Spec is the map that a volume promises, Abstract says
--     when a store stands for it, and Regions, Writes, Puts and Refinement are about that. Open is the
--     opening of a volume from its files (open_store is BlobStore::open), the snapshot, the statistics
--     and the compaction; Restore is the replay of the log in it, and Scan scan_segment,
--     rebuild_index_from_segments and find_current_position. Scanned, Found, Reopened and Returns are
--     about a volume without a snapshot, Saved is about one with a snapshot, Endless about a scan that
--     does not end.
--   Volume: src/volume/grpc.rs, src/volume/http.rs and src/volume/compaction.rs, under their names.
--   Raft: src/common/raft.rs and src/coordinator/raft_node.rs. Node is the state and the messages,
--     Handlers the methods that do not await, Rounds the elections and the replication, cut at their
--     awaits into open_ and close_ parts. Service is request_vote and append_entries of
--     src/coordinator/grpc.rs. Children about them: Voting, Election, Commit, Quorum
--     and Faults.
--   Placement: the weights of src/common/hash.rs, the states of src/common/utils.rs, the volumes of
--     src/coordinator/metadata.rs and select_volumes of src/coordinator/placement.rs. Ring is the
--     ring of the shards and the manager over it. Replicas and Disruption are about the selection.
--   Quota: src/common/quota.rs, with its children Limits and Runs.
--   Auth: src/common/auth.rs (its types; the KeyStore in Store) and src/common/auth_middleware.rs
--     (Middleware: a layer answers by itself or passes the request on). Issued, Invariant, Revoked,
--     Tokens and Access are about them.
--   Storage: the trait KVStore of src/common/storage.rs as an interface, and MemStore.
--   Metadata: src/coordinator/metadata.rs over interfaces of RocksDB and bincode; its child is RoundTrip.
--   Coordinator: src/coordinator/http.rs. Transactions is transaction_ops and admin_import, Batch
--     batch_ops, Queries search_keys, range_query and admin_export, Objects s3_put_object,
--     s3_get_object, put_key, get_key, delete_key and health_ready, ApiKeys the admin_ handlers of API
--     keys; Service is range and batch of src/coordinator/grpc.rs over the global store of
--     src/coordinator/metadata.rs. Outcome, BatchSpec, Selection, Ranges and Buckets are about them,
--     Tables is a database for the tests.
--   RateLimit: src/common/ratelimit.rs; Calls, Burst and Bounded are about it.
--   Metrics: src/common/metrics.rs; Buckets and Requests are about it.
--   Utils: retry_with_backoff and validate_key of src/common/utils.rs; Retry is about the first.
--   Config: src/common/config.rs.
--   Encryption: src/common/encryption.rs, with its child RoundTrip.
--   Errors: src/common/error.rs. Text: the functions of str that the source calls, on bytes.
--   Disk is a file with its synced part and a buffered writer, Bytes the reading of words and texts,
--     HashMap the map of the standard library as a list of entries, External the interfaces of the
--     third-party libraries (crc32fast, blake3, hex, bloomfilter, lz4) and of std::fs::rename with what is relied on of them
--     (those of the other libraries stand in Auth, Metadata and Encryption, and those of f64 in
--     RateLimit and Metrics),
--     Samples concrete instances for the tests, Prelude the shared helpers.
--
-- A key is its bytes in UTF-8. A word of 64 or 32 bits is a natural number, and a sum that can leave
-- the word wraps, as in a release build. The calls of
-- src/common/ratelimit.rs and src/coordinator/grpc.rs that can panic have an option as their result. The clock is an argument. I/O errors other than the end of a
-- file do not happen. The loops over a file run on fuel, one more than the bytes of the file: enough for
-- the log, of which every entry takes bytes, and for a segment file whose blobs lie one behind the other.
-- Retries run on the attempts that they have left.
--
-- Not modelled: the timers of the consensus, the watchers of changes, the start of the servers, what is
-- printed of metrics, audit and traces, the reading of the configuration by serde, the operations of
-- src/ops, which are stubs, and the command lines.
pub mod Prelude
pub mod HashMap
pub mod Text
pub mod Errors
pub mod Bytes
pub mod External
pub mod Disk
pub mod Utils
pub mod Volume
pub mod Wal
pub mod Index
pub mod Blob
pub mod Metrics
pub mod Placement
pub mod Quota
pub mod Storage
pub mod Metadata
pub mod Auth
pub mod Config
pub mod Coordinator
pub mod Encryption
pub mod Raft
pub mod RateLimit
pub mod Samples
