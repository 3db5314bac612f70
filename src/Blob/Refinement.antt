-- ===== src/Blob/Refinement.antt =====
-- The store of src/volume/blob.rs implements the map of its specification, over any sequence of its
-- operations.
use minikv.Prelude.{
  ℕ, ◌≡◌, refl, ◌∙◌, inl, inr, false, Bool-cases, Option, some, none, List, [], ◌∷◌, nat_eq,
  list_eq, ◌==◌, if◌then◌else◌,
}
use minikv.Bytes.{Bytes}
use minikv.Errors.{ok}
use minikv.HashMap.{HasDistinctKeys}
use minikv.HashMap.Laws.{lookup-remove, remove-HasDistinctKeys}
use minikv.Index.Expiry.{cleanup_expired_lem}
use minikv.Blob.Store.{Libraries, BlobStore, put_with_ttl, get, delete, cleanup_expired}
use minikv.Blob.Abstract.{
  Agrees, Implements, get_if_valid-present, get_if_valid-absent, get-Implements, empty-Implements,
}
use minikv.Blob.Writes.{IsPlain, IsPlain-Storable}
use minikv.Blob.Keys.{HasRoom}
use minikv.Blob.Puts.{Fits, put-Implements}
use minikv.Blob.Spec.{
  Spec, Command, put, delete as delete_key, cleanup, spec_step, spec_run, spec_get, is_past, live,
}

module _ (libs : Libraries) where
  removed-Agrees :
      (store : BlobStore libs) (key k : Bytes) (o : Option (Bytes × Option ℕ))
      → Agrees libs store k o
      → Agrees libs (delete libs key store) k (if key == k then none else o)
  unfolding delete
  removed-Agrees store key k o h = elim (Bool-cases (key == k)) [
    | inl same ↦ rw same (lookup-remove key k store.index.map ∙ rw same refl)
    | inr differ ↦ rw differ (kept differ o h)
  ]
    where
      kept :
          (key == k) ≡ false
          → (o : Option (Bytes × Option ℕ)) → Agrees libs store k o
          → Agrees libs (delete libs key store) k o
      kept differ none h = lookup-remove key k store.index.map ∙ rw differ h
      kept differ (some (v, e)) (l, found, same, holds, check) =
          (l, lookup-remove key k store.index.map ∙ rw differ found, same, holds, check)

  delete-Implements :
      (key : Bytes) (store : BlobStore libs) (spec : Spec)
      → Implements libs store spec
      → Implements libs (delete libs key store) (spec_step (delete_key key) spec)
  unfolding delete spec_step
  delete-Implements key store spec h = record {
    agrees = λ k. removed-Agrees store key k (spec k) (h.agrees k);
    distinct = remove-HasDistinctKeys key store.index.map h.distinct;
  }

  cleaned-Agrees :
      (now : ℕ) (store : BlobStore libs)
      → HasDistinctKeys store.index.map
      → (k : Bytes) (o : Option (Bytes × Option ℕ)) → Agrees libs store k o
      → Agrees libs (cleanup_expired libs now store).0 k (live now o)
  unfolding cleanup_expired
  cleaned-Agrees now store d k none h =
      (cleanup_expired_lem now store.index d).0 k ∙ get_if_valid-absent libs now k store.index h
  cleaned-Agrees now store d k (some (value, expires)) (loc, found, same, holds, check) =
      elim (Bool-cases (is_past now loc.expires_at)) [
        | inl past ↦
            rw (← same, past)
              ((cleanup_expired_lem now store.index d).0 k
                ∙ get_if_valid-present libs now k store.index loc found
                ∙ rw past refl)
        | inr there ↦
            rw (← same, there)
              (
                loc,
                (cleanup_expired_lem now store.index d).0 k
                    ∙ get_if_valid-present libs now k store.index loc found
                    ∙ rw there refl,
                refl,
                holds,
                check,
              )
      ]

  cleanup-Implements :
      (now : ℕ) (store : BlobStore libs) (spec : Spec)
      → Implements libs store spec
      → Implements libs (cleanup_expired libs now store).0 (spec_step (cleanup now) spec)
  unfolding cleanup_expired spec_step
  cleanup-Implements now store spec h = record {
    agrees = λ k. cleaned-Agrees now store h.distinct k (spec k) (h.agrees k);
    distinct = (cleanup_expired_lem now store.index h.distinct).2;
  }

  -- The store after a command.
  abbrev pub step : Command → BlobStore libs → BlobStore libs
  step (put now key value ttl_ms) store = (put_with_ttl libs now key value ttl_ms store).0
  step (delete_key key) store = delete libs key store
  step (cleanup now) store = (cleanup_expired libs now store).0

  abbrev pub run : List Command → BlobStore libs → BlobStore libs
  run [] store = store
  run (c ∷ cs) store = run cs (step c store)

  abbrev pub AllFit : List Command → BlobStore libs → Type 0
  AllFit [] store = Unit {0}
  AllFit (c ∷ cs) store = Fits libs c store × AllFit cs (step c store)

  step-Implements :
      (c : Command) (store : BlobStore libs) (spec : Spec)
      → Fits libs c store
      → Implements libs store spec
      → Implements libs (step c store) (spec_step c spec)
  step-Implements (put now key value ttl_ms) store spec fits h =
      put-Implements libs now key value ttl_ms store spec fits h
  step-Implements (delete_key key) store spec fits h = delete-Implements key store spec h
  step-Implements (cleanup now) store spec fits h = cleanup-Implements now store spec h

  run-Implements :
      (cs : List Command) (store : BlobStore libs) (spec : Spec)
      → AllFit cs store
      → Implements libs store spec
      → Implements libs (run cs store) (spec_run cs spec)
  unfolding spec_run
  run-Implements [] store spec fits h = h
  run-Implements (c ∷ cs) store spec (first, others) h =
      run-Implements cs (step c store) (spec_step c spec) others
        (step-Implements c store spec first h)

  -- What puts ask for that are stored as they are.
  abbrev pub FitsPlain : Command → BlobStore libs → Type 0
  FitsPlain (put now key value ttl_ms) store =
      HasRoom libs store × IsPlain libs.crc libs.codec store.compression key value
  FitsPlain (delete_key key) store = Unit {0}
  FitsPlain (cleanup now) store = Unit {0}

  abbrev pub AllPlain : List Command → BlobStore libs → Type 0
  AllPlain [] store = Unit {0}
  AllPlain (c ∷ cs) store = FitsPlain c store × AllPlain cs (step c store)

  FitsPlain-Fits : (c : Command) (store : BlobStore libs) → FitsPlain c store → Fits libs c store
  FitsPlain-Fits (put now key value ttl_ms) store (room, plain) =
      (room, IsPlain-Storable libs.crc libs.codec store.compression key value plain)
  FitsPlain-Fits (delete_key key) store h = tt
  FitsPlain-Fits (cleanup now) store h = tt

  AllPlain-AllFit :
      (cs : List Command) (store : BlobStore libs) → AllPlain cs store → AllFit cs store
  AllPlain-AllFit [] store h = tt
  AllPlain-AllFit (c ∷ cs) store (h, hs) =
      (FitsPlain-Fits c store h, AllPlain-AllFit cs (step c store) hs)

  -- The same where a value may be compressed, if what is stored then stands for it.
  get-spec_run :
      (cs : List Command) (store : BlobStore libs)
      → store.index.map ≡ []
      → AllFit cs store
      → (later : ℕ) (key : Bytes)
      → get libs later key (run cs store) ≡ ok (spec_get later key (spec_run cs (λ k. none)))
  get-spec_run cs store e fits later key =
      get-Implements libs later key (run cs store) (spec_run cs (λ k. none))
        (run-Implements cs store (λ k. none) fits (empty-Implements libs store e))

  -- A store whose index is empty, put through any sequence of puts (with or without a time-to-live),
  -- deletes and cleanups, answers a read of any key at any time as the map of keys to values and
  -- expiry times does that the same sequence makes. Each put finds room, its key and its value fit the
  -- fields of the format, and its value is stored as it is: every one in a store without compression, and
  -- in one with it those that are short or that do not get smaller.
  pub get-spec_run_uncompressed :
      (cs : List Command) (store : BlobStore libs)
      → store.index.map ≡ []
      → AllPlain cs store
      → (later : ℕ) (key : Bytes)
      → get libs later key (run cs store) ≡ ok (spec_get later key (spec_run cs (λ k. none)))
  get-spec_run_uncompressed cs store e plain later key =
      get-spec_run cs store e (AllPlain-AllFit cs store plain) later key
