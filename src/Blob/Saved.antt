-- ===== src/Blob/Saved.antt =====
-- src/volume/blob.rs: a volume that is opened again behind its snapshot.
use minikv.Prelude.{
  Option, ℕ, ◌+◌, ◌-◌, ◌^◌, ◌<◌, ◌≡◌, refl, sym, ap, ◌∙◌, arith, true, false, none, some, List, [],
  ◌∷◌, length, All, append-nil, nat_eq, list_eq, ◌==◌, list_beq_iff, Bool-cases, Option-cases, inl,
  inr, subst, if◌then◌else◌,
}
use minikv.Errors.{ok}
use minikv.Bytes.{Bytes, IsU64}
use minikv.HashMap.{HashMap, lookup, HasDistinctKeys}
use minikv.Index.{Index, BlobLocation, get_if_valid, is_expired}
use minikv.Index.Snapshot.{load_snapshot-save_snapshot}
use minikv.Index.Snapshot
use minikv.Wal.{WalEntry, WalSyncPolicy}
use minikv.Wal.Format.{IsStorable}
use minikv.Wal.Replay.{log_bytes}
use minikv.Wal.Reopen.{open_wal-IsLogOf}
use minikv.Wal.Crash.{empty-IsEnd}
use minikv.Blob.Format.{uncompressed, read_blob}
use minikv.Blob.Store.{Libraries, BlobStore, hash_bytes, get}
use minikv.Blob.Keys.{get_found, get_missing}
use minikv.Blob.Restore.{restore-log_bytes, deletes, set_keys}
use minikv.Blob.Scan.{find_current_position}
use minikv.Blob.Open.{
  VolumeFiles, load_index, load_bloom, replayed, complete, opened_store, open_store, save_snapshot,
}

module _ (libs : Libraries) where
  -- The files behind a snapshot, with what the log has by then, and any filter file or none.
  abbrev pub saved_files : BlobStore libs → List WalEntry → Option Bytes → VolumeFiles
  saved_files store es bloom_file = record {
    snapshot = some (save_snapshot libs store).0;
    bloom_file = bloom_file;
    wal_file = some (log_bytes libs.crc es);
    segments = store.segments;
  }

  set_keys_other :
      (x : Bytes) (m : HashMap Bytes BlobLocation) (bloom : libs.bloom.Filter)
      → libs.bloom.check x bloom ≡ true
      → libs.bloom.check x (set_keys libs m bloom) ≡ true
  unfolding set_keys
  set_keys_other x [] bloom h = h
  set_keys_other x ((k, loc) ∷ m) bloom h =
      set_keys_other x m _ (libs.bloom.check-set_other x (hash_bytes libs k) bloom h)

  check-set_keys :
      (key : Bytes) (loc : BlobLocation) (m : HashMap Bytes BlobLocation)
      (bloom : libs.bloom.Filter)
      → lookup key m ≡ some loc
      → libs.bloom.check (hash_bytes libs key) (set_keys libs m bloom) ≡ true
  unfolding set_keys lookup
  check-set_keys key loc [] bloom h = absurd cc
  check-set_keys key loc ((k, l) ∷ m) bloom h = elim (Bool-cases (k == key)) [
    | inl same ↦ set_keys_other (hash_bytes libs key) m _ (
        subst
          (λ j.
            libs.bloom.check (hash_bytes libs j) (libs.bloom.set (hash_bytes libs k) bloom) ≡ true)
          ((list_beq_iff k key).0 same) (libs.bloom.check-set (hash_bytes libs k) bloom))
    | inr other ↦ check-set_keys key loc m _ (rw other at h)
  ]

  get_if_valid-same :
      (later : ℕ) (key : Bytes) (a b : Index)
      → lookup key a.map ≡ lookup key b.map
      → get_if_valid later key a ≡ get_if_valid later key b
  unfolding get_if_valid is_expired
  get_if_valid-same later key a b same = rw (same, is_expired) refl

  lookup-valid :
      (later : ℕ) (key : Bytes) (ix : Index) (loc : BlobLocation)
      → get_if_valid later key ix ≡ some loc
      → lookup key ix.map ≡ some loc
  unfolding get_if_valid is_expired
  lookup-valid later key ix loc h = ground arith

  -- Reading a key depends on its location and on the segments alone, if the filter has what the index has.
  get_same :
      (later : ℕ) (key : Bytes) (a b : BlobStore libs)
      → lookup key a.index.map ≡ lookup key b.index.map
      → a.segments ≡ b.segments
      → ((loc : BlobLocation)
          → lookup key a.index.map ≡ some loc
          → libs.bloom.check (hash_bytes libs key) a.bloom ≡ true)
      → ((loc : BlobLocation)
          → lookup key b.index.map ≡ some loc
          → libs.bloom.check (hash_bytes libs key) b.bloom ≡ true)
      → get libs later key a ≡ get libs later key b
  get_same later key a b same segs in_a in_b =
      elim (Option-cases (get_if_valid later key b.index)) [
        | inl missing ↦
            get_missing libs later key a
              (get_if_valid-same later key a.index b.index same ∙ missing)
            ∙ sym (get_missing libs later key b missing)
        | inr (loc, found) ↦
            let found_a = get_if_valid-same later key a.index b.index same ∙ found in
            get_found libs later key a loc (in_a loc (lookup-valid later key a.index loc found_a))
              found_a
            ∙ ap (λ s. read_blob libs.crc libs.codec s loc) segs
            ∙ sym (
                get_found libs later key b loc (in_b loc (lookup-valid later key b.index loc found))
                  found)
      ]

  -- A volume that has saved a snapshot opens again from it, whatever its filter file has by then, also
  -- where it is gone, if its index and the entries of its log fit their formats. A key that no entry of the log deletes then
  -- reads, at any time, as it did in the store that was saved, provided that the filter of that store
  -- had the key if its index did.
  pub get-open_store-save_snapshot :
      (later : ℕ) (key : Bytes) (policy : WalSyncPolicy) (es : List WalEntry)
      (bloom_file : Option Bytes) (store : BlobStore libs)
      → All Snapshot.IsStorable store.index.map
      → HasDistinctKeys store.index.map
      → IsU64 (length store.index.map)
      → All IsStorable es
      → All (λ e. e.sequence + 1 < 2 ^ 64 - 1) es
      → deletes key es ≡ false
      → ((loc : BlobLocation)
          → lookup key store.index.map ≡ some loc
          → libs.bloom.check (hash_bytes libs key) store.bloom ≡ true)
      → (reopened : BlobStore libs) × (open_store libs policy (saved_files store es bloom_file)
          ≡ some (ok reopened))
        × (get libs later key reopened ≡ get libs later key store)
  unfolding open_store load_index replayed complete opened_store save_snapshot
  get-open_store-save_snapshot later key policy es bloom_file store fit distinct few storable room
        kept_key in_filter =
      let (wal, opens, is_log) = open_wal-IsLogOf libs.crc policy es storable room in
      let loaded = load_snapshot-save_snapshot store.index fit distinct few in
      let (state, restored, (held, kept)) =
        restore-log_bytes libs es [] store.index (load_bloom libs bloom_file) storable
          (empty-IsEnd libs.crc) in
      let here : lookup key state.0.map ≡ lookup key store.index.map =
        held key ∙ ap (λ b. if b then none else lookup key store.index.map) kept_key in
      let (current_segment, current_offset) = find_current_position store.segments in
      let reopened : BlobStore libs = record {
        segments = store.segments;
        index = state.0;
        bloom = set_keys libs state.0.map state.1;
        wal = wal;
        current_segment = current_segment;
        current_offset = current_offset;
        compression = uncompressed;
      } in
      (
        reopened,
        rw (loaded, open_store)
            (rw (opens, open_store) (rw (rw append-nil at restored, replayed) refl)),
        get_same later key reopened store here refl
            (λ loc h. check-set_keys key loc state.0.map state.1 h) in_filter,
      )
