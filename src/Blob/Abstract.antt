-- ===== src/Blob/Abstract.antt =====
-- The map that the store of src/volume/blob.rs stands for.
use minikv.Prelude.{
  ℕ, ◌≡◌, refl, ap, ◌∙◌, arith, inl, inr, true, Bool-cases, Option, some, none, [], nat_eq, list_eq,
  if◌then◌else◌,
}
use minikv.Bytes.{Bytes}
use minikv.Errors.{ok}
use minikv.HashMap.{lookup, HasDistinctKeys}
use minikv.Index.{Index, BlobLocation, has_expired, get_if_valid, is_expired}
use minikv.Blob.Regions.{Holds, read_blob-Holds}
use minikv.Blob.Store.{Libraries, BlobStore, hash_bytes, get}
use minikv.Blob.Spec.{Spec, spec_get, is_past, live_value}
use minikv.Blob.Keys.{get_missing, get_found}

module _ (libs : Libraries) where
  abbrev pub HoldsIn : BlobStore libs → BlobLocation → Bytes → Type 0
  HoldsIn store =
      Holds libs.crc libs.codec store.segments store.current_segment store.current_offset

  -- The store has for a key what the specification has.
  abbrev pub Agrees : BlobStore libs → Bytes → Option (Bytes × Option ℕ) → Type 0
  Agrees store key none = lookup key store.index.map ≡ none
  Agrees store key (some (value, expires)) =
      (loc : BlobLocation) × (lookup key store.index.map ≡ some loc)
      × (loc.expires_at ≡ expires)
      × HoldsIn store loc value
      × (libs.bloom.check (hash_bytes libs key) store.bloom ≡ true)

  pub record Implements (store : BlobStore libs) (spec : Spec) : Type 0 where
    pub agrees : (key : Bytes) → Agrees store key (spec key)
    pub distinct : HasDistinctKeys store.index.map

  pub get_if_valid-present :
      (now : ℕ) (key : Bytes) (ix : Index) (loc : BlobLocation)
      → lookup key ix.map ≡ some loc
      → get_if_valid now key ix ≡ (if is_past now loc.expires_at then none else some loc)
  unfolding get_if_valid is_expired has_expired
  get_if_valid-present now key ix loc h = ground (arith, h)

  pub get_if_valid-absent :
      (now : ℕ) (key : Bytes) (ix : Index)
      → lookup key ix.map ≡ none
      → get_if_valid now key ix ≡ none
  unfolding get_if_valid is_expired
  get_if_valid-absent now key ix h = ground (arith, h)

  get-Agrees :
      (now : ℕ) (key : Bytes) (store : BlobStore libs) (o : Option (Bytes × Option ℕ))
      → Agrees store key o
      → get libs now key store ≡ ok (live_value now o)
  get-Agrees now key store none h =
      get_missing libs now key store (get_if_valid-absent now key store.index h)
  get-Agrees now key store (some (value, expires)) (loc, found, same, holds, checked) =
      elim (Bool-cases (is_past now loc.expires_at)) [
        | inl past ↦
            rw (← same, past)
              (get_missing libs now key store
                (get_if_valid-present now key store.index loc found ∙ rw past refl))
        | inr there ↦
            rw (← same, there)
              (get_found libs now key store loc checked
                  (get_if_valid-present now key store.index loc found ∙ rw there refl)
                ∙ read_blob-Holds _ _ _ _ _ _ _ holds)
      ]

  -- A read gives what the specification has, at any time.
  pub get-Implements :
      (now : ℕ) (key : Bytes) (store : BlobStore libs) (spec : Spec)
      → Implements store spec
      → get libs now key store ≡ ok (spec_get now key spec)
  unfolding spec_get
  get-Implements now key store spec h = get-Agrees now key store (spec key) (h.agrees key)

  -- The empty store.
  pub empty-Implements :
      (store : BlobStore libs) → store.index.map ≡ [] → Implements store (λ key. none)
  unfolding lookup
  empty-Implements store e = record { agrees = λ key. ap (lookup key) e; distinct = rw e tt }
