-- ===== src/Blob/Open.antt =====
-- src/volume/blob.rs: what opens a volume from its files, and what leaves files for the next opening. The
-- segment files stand in the order in which the directories list them.
use minikv.Prelude.{
  refl, ◌≡◌, ℕ, ◌+◌, ◌%◌, ◌^◌, Option, none, some, List, [], ◌∷◌, ◌++◌, String, ltb, length,
  if◌then◌else◌,
}
use minikv.Errors.{other_io, io, Result, ok, err}
use minikv.Bytes.{Bytes}
use minikv.External.{Rename}
use minikv.HashMap.{HashMap}
use minikv.Wal.{Wal, WalSyncPolicy, open_wal, truncate}
use minikv.Index.{Index, BlobLocation, load_snapshot, keys_with_ttl}
use minikv.Index
use minikv.Blob.Format.{
  Segments, CompressionMode, uncompressed, opened, read_blob, write_blob_to_segment,
}
use minikv.Blob.Store.{Libraries, BlobStore, segment_size}
use minikv.Blob.Restore.{restore, set_keys}
use minikv.Blob.Scan.{rebuild_index_from_segments, find_current_position}

pub record VolumeFiles : Type 0 where
  pub snapshot : Option Bytes
  pub bloom_file : Option Bytes
  pub wal_file : Option Bytes
  pub segments : Segments

pub record StoreStats : Type 0 where
  pub total_keys : ℕ
  pub total_bytes : ℕ
  pub active_segments : ℕ
  pub index_size : ℕ
  pub bloom_false_positives : ℕ
  pub keys_with_ttl : ℕ
  pub compressed_blobs : ℕ

unfoldable pub load_index : Option Bytes → Result Index
load_index none = ok Index.new
load_index (some file) = load_snapshot file

-- Sizes in `u64`, of which the sum wraps.
unfoldable pub total_size : HashMap Bytes BlobLocation → ℕ
total_size [] = 0
total_size ((key, loc) ∷ m) = (loc.size + total_size m) % 2 ^ 64

-- What a compaction has written so far, and where it goes on.
pub record Compacted : Type 0 where
  pub index : Index
  pub segment : ℕ
  pub offset : ℕ
  pub files : Segments

module _ (libs : Libraries) where
  -- A filter file that cannot be read gives way to a new filter.
  unfoldable pub load_bloom : Option Bytes → libs.bloom.Filter
  load_bloom none = libs.bloom.new_for_fp_rate
  load_bloom (some bytes) = elim (libs.bloom.from_bytes bytes) [
    | some bloom ↦ bloom
    | none ↦ libs.bloom.new_for_fp_rate
  ]

  -- What follows the replay of the log: the scan of the segments, or the keys of the snapshot.
  unfoldable pub complete :
      VolumeFiles → Index × libs.bloom.Filter → Option (Result (Index × libs.bloom.Filter))
  complete files (index, bloom) = elim files.snapshot [
    | none ↦ rebuild_index_from_segments libs files.segments (index, bloom)
    | some file ↦ some (ok (index, set_keys libs index.map bloom))
  ]

  unfoldable pub opened_store :
      VolumeFiles
      → Wal
      → Option (Result (Index × libs.bloom.Filter))
      → Option (Result (BlobStore libs))
  opened_store files wal none = none
  opened_store files wal (some (err e)) = some (err e)
  opened_store files wal (some (ok (index, bloom))) =
      let (current_segment, current_offset) = find_current_position files.segments in
      some (
        ok (record {
          segments = files.segments;
          index = index;
          bloom = bloom;
          wal = wal;
          current_segment = current_segment;
          current_offset = current_offset;
          compression = uncompressed;
        }))

  -- The replay of the log, which `Wal::open` has made sure is there, and what follows.
  unfoldable pub replayed :
      VolumeFiles
      → Wal
      → Option (Result (Index × libs.bloom.Filter))
      → Option (Result (BlobStore libs))
  unfolding complete opened_store
  replayed files wal none = none
  replayed files wal (some (err e)) = some (err e)
  replayed files wal (some (ok state)) = opened_store files wal (complete files state)

  -- `none` stands for a loop that has not ended.
  unfoldable pub open_store : WalSyncPolicy → VolumeFiles → Option (Result (BlobStore libs))
  unfolding load_index load_bloom replayed
  open_store sync_policy files = elim (load_index files.snapshot) [
    | err e ↦ some (err e)
    | ok index ↦ elim (open_wal libs.crc sync_policy (opened files.wal_file)) [
      | none ↦ none
      | some wal ↦
          replayed files wal
            (restore libs (some (opened files.wal_file)) index (load_bloom files.bloom_file))
    ]
  ]

  unfoldable pub open_with_compression :
      WalSyncPolicy → CompressionMode → VolumeFiles → Option (Result (BlobStore libs))
  unfolding open_store
  open_with_compression sync_policy compression files = elim (open_store sync_policy files) [
    | none ↦ none
    | some (err e) ↦ some (err e)
    | some (ok store) ↦ some (ok (record store { compression = compression }))
  ]

  -- The files of the index and of the filter.
  unfoldable pub save_snapshot : BlobStore libs → Bytes × Bytes
  save_snapshot store = (Index.save_snapshot store.index, libs.bloom.to_bytes store.bloom)

  unfoldable pub stats : BlobStore libs → StoreStats
  unfolding total_size keys_with_ttl
  stats store = record {
    total_keys = length store.index.map;
    total_bytes = total_size store.index.map;
    active_segments = store.current_segment + 1;
    index_size = length store.index.map;
    bloom_false_positives = 0;
    keys_with_ttl = length (keys_with_ttl store.index);
    compressed_blobs = 0;
  }

  unfoldable pub compact_value : CompressionMode → Bytes → Bytes → Compacted → Compacted
  compact_value mode key value c =
      let (files, location, bytes_written) =
        write_blob_to_segment libs.crc libs.codec libs.blake3 mode c.segment c.offset key value
          c.files in
      let offset = c.offset + bytes_written in
      let index = Index.insert_key key location c.index in
      if ltb segment_size offset
      then record { index = index; segment = c.segment + 1; offset = 0; files = files }
      else record { index = index; segment = c.segment; offset = offset; files = files }

  -- A blob that cannot be read is left behind.
  unfoldable pub compact_blobs : BlobStore libs → HashMap Bytes BlobLocation → Compacted → Compacted
  unfolding compact_value
  compact_blobs store [] c = c
  compact_blobs store ((key, old_location) ∷ m) c =
      compact_blobs store m (elim (read_blob libs.crc libs.codec store.segments old_location) [
        | ok (some value) ↦ compact_value store.compression key value c
        | ok none ↦ c
        | err e ↦ c
      ])

  -- With the files that the temporary directory has from before: the store, what the temporary
  -- directory then has, and the files that `save_snapshot` leaves at the end.
  unfoldable pub compact :
      Rename
      → List String
      → Segments
      → BlobStore libs
      → BlobStore libs × Segments × Result (Bytes × Bytes)
  unfolding compact_blobs save_snapshot
  compact fs data_path temp store =
      let c =
        compact_blobs store store.index.map
          (record { index = Index.new; segment = 0; offset = 0; files = temp }) in
      elim (fs.rename data_path (data_path ++ "compact_backup" ∷ [])) [
        | err e ↦ (store, c.files, err e)
        | ok done ↦ elim (fs.rename (data_path ++ "compact_temp" ∷ []) data_path) [
          | err e ↦ (record store { segments = [] }, [], err e)
          | ok moved ↦
              let after = record store {
                segments = c.files;
                index = c.index;
                current_segment = c.segment;
                current_offset = c.offset;
              } in
              (record after { wal = truncate after.wal }, [], ok (save_snapshot after))
        ]
      ]

  -- A compaction fails in every store: it moves the directory of the data into that directory itself,
  -- which is no move. The store stays as it was, its index, its segments and its log included, and
  -- the blobs that were copied stay behind in the temporary directory.
  pub compact_lem :
      (fs : Rename) (data_path : List String) (temp : Segments) (store : BlobStore libs)
      → let (after, left, result) = compact fs data_path temp store in
        (after ≡ store) × (result ≡ err (io other_io))
  unfolding compact
  compact_lem fs data_path temp store =
      rw (fs.rename_inside data_path "compact_backup", compact) (refl, refl)
