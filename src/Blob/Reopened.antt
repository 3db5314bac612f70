-- ===== src/Blob/Reopened.antt =====
-- src/volume/blob.rs: what a volume without a snapshot holds when it is opened again.
use minikv.Prelude.{
  ◌||◌, not, if◌then◌else◌, ◌+◌, ◌-◌, ◌^◌, ◌<◌, ◌≡◌, refl, ◌∙◌, Bool, true, false, Option, none,
  some, List, [], All, append-nil, nat_eq, list_eq,
}
use minikv.Errors.{ok}
use minikv.Bytes.{Bytes}
use minikv.HashMap.{lookup}
use minikv.Index
use minikv.Wal.{WalEntry, WalSyncPolicy}
use minikv.Wal.Format.{IsStorable}
use minikv.Wal.Replay.{log_bytes}
use minikv.Wal.Reopen.{open_wal-IsLogOf}
use minikv.Wal.Crash.{empty-IsEnd}
use minikv.Blob.Store.{Libraries, BlobStore, hash_bytes}
use minikv.Blob.Restore.{restore-log_bytes, deletes}
use minikv.Blob.Format.{uncompressed}
use minikv.Blob.Scan.{find_current_position}
use minikv.Blob.Open.{
  VolumeFiles, load_index, load_bloom, replayed, complete, opened_store, open_store,
}
use minikv.Blob.Found.{
  SegmentFile, IsScannableFile, segments_of, last_in, is_some, IsFound, rebuild-IsFound,
}

module _ (libs : Libraries) where
  -- The files of a volume that has no snapshot.
  abbrev pub unsaved : Option Bytes → List WalEntry → List SegmentFile → VolumeFiles
  unsaved bloom_file es fs = record {
    snapshot = none;
    bloom_file = bloom_file;
    wal_file = some (log_bytes libs.crc es);
    segments = segments_of libs fs;
  }

  same_either : {A : Type 0} {a : A} (b : Bool) → (if b then a else a) ≡ a
  same_either true = refl
  same_either false = refl

  as_or : (a b : Bool) → (a ≡ true → b ≡ true) → (not a || b) ≡ true
  as_or true b h = h refl
  as_or false b h = refl

  -- A volume without a snapshot opens, if its log has entries that the format can hold, numbered below
  -- the end of 64 bits, and its segment files have blobs that the format can hold, with bytes behind
  -- them that begin with no magic. Its index then has the last blob of each key in the order of the
  -- files, without any time of expiry, and its filter has each of these keys, whatever the log says:
  -- a delete in the log takes nothing away.
  pub open_store-unsaved :
      (policy : WalSyncPolicy) (es : List WalEntry) (bloom_file : Option Bytes)
      (fs : List SegmentFile)
      → All IsStorable es
      → All (λ e. e.sequence + 1 < 2 ^ 64 - 1) es
      → All (IsScannableFile libs) fs
      → (store : BlobStore libs) × (open_store libs policy (unsaved bloom_file es fs)
          ≡ some (ok store))
        × (store.segments ≡ segments_of libs fs)
        × ((key : Bytes) → lookup key store.index.map ≡ last_in libs fs key none)
        × ((key : Bytes)
            → (not (is_some (last_in libs fs key none))
                || libs.bloom.check (hash_bytes libs key) store.bloom)
              ≡ true)
  unfolding open_store load_index replayed complete opened_store lookup
  open_store-unsaved policy es bloom_file fs storable room hs =
      let (wal, opens, is_log) = open_wal-IsLogOf libs.crc policy es storable room in
      let (state, restored, (held, kept)) =
        restore-log_bytes libs es [] Index.new (load_bloom libs bloom_file) storable
          (empty-IsEnd libs.crc) in
      let start : IsFound libs state (λ key. none) =
        (λ key. held key ∙ same_either (deletes key es), λ key h. absurd cc) in
      let (after, ran, (found, in_filter)) = rebuild-IsFound libs fs state (λ key. none) hs start in
      let (current_segment, current_offset) = find_current_position (segments_of libs fs) in
      (
        record {
          segments = segments_of libs fs;
          index = after.0;
          bloom = after.1;
          wal = wal;
          current_segment = current_segment;
          current_offset = current_offset;
          compression = uncompressed;
        },
        rw (opens, open_store)
            (rw (rw append-nil at restored, replayed) (rw (ran, opened_store) refl)),
        refl,
        found,
        λ key. as_or _ _ (in_filter key),
      )
