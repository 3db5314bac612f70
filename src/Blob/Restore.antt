-- ===== src/Blob/Restore.antt =====
-- src/volume/blob.rs, `BlobStore::open`: what the replay of the log makes of the index and the filter that
-- were loaded, and the filter of the keys of a snapshot.
use minikv.Prelude.{
  not, ◌≡◌, refl, sym, ap, list_beq_iff, ◌∙◌, arith, inl, inr, Bool, true, false, Bool-cases, ◌||◌,
  ◌⊎◌, Option, none, some, List, [], ◌∷◌, ◌++◌, All, nat_eq, list_eq, ◌==◌, if◌then◌else◌,
}
use minikv.Bytes.{Bytes}
use minikv.Errors.{Result, ok}
use minikv.HashMap.{HashMap, lookup}
use minikv.HashMap.Laws.{lookup-remove}
use minikv.Index.{Index, BlobLocation}
use minikv.Index
use minikv.Wal.{WalEntry, WalOp, put, delete, replay}
use minikv.Wal.Format.{IsStorable}
use minikv.Wal.Replay.{run, log_bytes, IsEnd, replay-log_bytes}
use minikv.Blob.Store.{Libraries, hash_bytes}

-- Whether the log has a delete of the key.
abbrev pub deletes : Bytes → List WalEntry → Bool
deletes key [] = false
deletes key (e ∷ es) = (elim e.op [ put k value ↦ false | delete k ↦ k == key ]) || deletes key es

-- Whether the log has a put of the key.
abbrev pub puts : Bytes → List WalEntry → Bool
puts key [] = false
puts key (e ∷ es) = (elim e.op [ put k value ↦ k == key | delete k ↦ false ]) || puts key es

module _ (libs : Libraries) where
  -- The callback of the replay.
  unfoldable pub replay_entry :
      WalEntry → Index × libs.bloom.Filter → Result (Index × libs.bloom.Filter)
  replay_entry entry (index, bloom) = elim entry.op [
    | put key value ↦ ok (index, libs.bloom.set (hash_bytes libs key) bloom)
    | delete key ↦ ok (Index.remove_key key index, bloom)
  ]

  -- The replay, from what was loaded.
  unfoldable pub restore :
      Option Bytes → Index → libs.bloom.Filter → Option (Result (Index × libs.bloom.Filter))
  unfolding replay_entry
  restore wal_file index bloom = replay libs.crc replay_entry wal_file (index, bloom)

  -- With a snapshot, the filter gets each key of the index.
  unfoldable pub set_keys : HashMap Bytes BlobLocation → libs.bloom.Filter → libs.bloom.Filter
  set_keys [] bloom = bloom
  set_keys ((key, location) ∷ m) bloom = set_keys m (libs.bloom.set (hash_bytes libs key) bloom)

  -- What the replay of the entries makes of an index and a filter: the keys that are left, and that
  -- the filter has no fewer than it had or the entries put.
  abbrev pub IsRestored :
      List WalEntry → Index → libs.bloom.Filter → Index × libs.bloom.Filter → Type 0
  IsRestored es index bloom (index2, bloom2) =
      ((key : Bytes)
        → lookup key index2.map ≡ (if deletes key es then none else lookup key index.map))
      × ((key : Bytes)
          → (not (puts key es || libs.bloom.check (hash_bytes libs key) bloom)
              || libs.bloom.check (hash_bytes libs key) bloom2)
            ≡ true)

  abbrev HasNoFewer : List WalEntry → libs.bloom.Filter → libs.bloom.Filter → Type 0
  HasNoFewer es bloom bloom2 =
      (key : Bytes)
      → (puts key es || libs.bloom.check (hash_bytes libs key) bloom) ≡ true
      → libs.bloom.check (hash_bytes libs key) bloom2 ≡ true

  as_implication : (a b : Bool) → (a ≡ true → b ≡ true) → (not a || b) ≡ true
  as_implication true b h = h refl
  as_implication false b h = refl

  op_cases :
      (o : WalOp)
      → ((k : Bytes) × (value : Bytes) × (o ≡ put k value)) ⊎ ((k : Bytes) × (o ≡ delete k))
  op_cases (put k value) = inl (k, value, refl)
  op_cases (delete k) = inr (k, refl)

  set_put :
      (k key : Bytes) (es : List WalEntry) (bloom : libs.bloom.Filter)
      → (((k == key) || puts key es) || libs.bloom.check (hash_bytes libs key) bloom) ≡ true
      → (puts key es
          || libs.bloom.check (hash_bytes libs key) (libs.bloom.set (hash_bytes libs k) bloom))
        ≡ true
  set_put k key es bloom h = elim (Bool-cases (k == key)) [
    | inl same ↦
        let here : libs.bloom.check (hash_bytes libs key) (libs.bloom.set (hash_bytes libs k) bloom)
            ≡ true =
          ap (λ j. libs.bloom.check (hash_bytes libs j) (libs.bloom.set (hash_bytes libs k) bloom))
            (sym ((list_beq_iff k key).0 same))
          ∙ libs.bloom.check-set (hash_bytes libs k) bloom in
        ground (arith, here)
    | inr other ↦ ground (
      arith,
      h,
      other,
      libs.bloom.check-set_other (hash_bytes libs key) (hash_bytes libs k) bloom,
    )
  ]

  removed_first :
      (k key : Bytes) (es : List WalEntry) (index : Index)
      → (if deletes key es then none else lookup key (Index.remove_key k index).map)
        ≡ (if (k == key) || deletes key es then none else lookup key index.map)
  removed_first k key es index = ground (arith, lookup-remove k key index.map)

  run_restores :
      (es : List WalEntry) (index : Index) (bloom : libs.bloom.Filter)
      → (after : Index × libs.bloom.Filter) × (run replay_entry es (index, bloom) ≡ ok after)
        × (((key : Bytes)
              → lookup key after.0.map ≡ (if deletes key es then none else lookup key index.map))
            × HasNoFewer es bloom after.1)
  unfolding replay_entry
  run_restores [] index bloom = ((index, bloom), refl, (λ key. refl, λ key h. h))
  run_restores (e ∷ es) index bloom = elim (op_cases e.op) [
    | inl (k, value, is_put) ↦
        let (after, ran, both) = run_restores es index (libs.bloom.set (hash_bytes libs k) bloom) in
        rw (is_put, replay_entry)
          (after, ran, (both.0, λ key h. both.1 key (set_put k key es bloom h)))
    | inr (k, is_delete) ↦
        let (after, ran, both) = run_restores es (Index.remove_key k index) bloom in
        rw (is_delete, replay_entry)
          (after, ran, (λ key. both.0 key ∙ removed_first k key es index, both.1))
  ]

  -- Opening a volume replays its log, of entries that the format can hold with bytes behind it that are
  -- no entry, over the index and the filter that were loaded: a key that the log deletes anywhere is
  -- then not in the index, also if it was put again behind the delete and the loaded index has it;
  -- every other key is as it was loaded, and no put of the log enters the index. The filter has the
  -- keys that it had and those that the log puts.
  pub restore-log_bytes :
      (es : List WalEntry) (tail : Bytes) (index : Index) (bloom : libs.bloom.Filter)
      → All IsStorable es
      → IsEnd libs.crc tail
      → (after : Index × libs.bloom.Filter) × (restore
            (some (log_bytes libs.crc es ++ tail))
            index
            bloom
          ≡ some (ok after))
        × IsRestored es index bloom after
  unfolding restore
  restore-log_bytes es tail index bloom storable ends =
      let (after, ran, (held, no_fewer)) = run_restores es index bloom in
      (
        after,
        replay-log_bytes libs.crc replay_entry es tail (index, bloom) storable ends ∙ ap some ran,
        (held, λ key. as_implication _ _ (no_fewer key)),
      )
