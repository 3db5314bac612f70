-- ===== src/Auth/Invariant.antt =====
-- Sequences of operations on the key store of src/common/auth.rs, and what they keep.
use minikv.Prelude.{
  ℕ, ◌≡◌, refl, inl, inr, false, Option, Option-cases, Sum-cases, some, List, [], ◌∷◌, nat_eq,
  list_eq,
}
use minikv.Bytes.{Bytes}
use minikv.HashMap.{lookup, HasDistinctKeys}
use minikv.HashMap.Laws.{insert-HasDistinctKeys, remove-HasDistinctKeys}
use minikv.HashMap.Values.{AllEntries, insert-AllEntries, remove-AllEntries, lookup-AllEntries}
use minikv.Auth.{Role, ApiKey, Credentials, KeyStore}
use minikv.Auth.Store.{
  with_secret, Draws, plaintext, generate_key, revoke_key, delete_key, touch_key,
}

pub data Event : Type 0 where
  generate : ℕ → Draws → Bytes → Bytes → Role → Option ℕ → Event
  revoke delete : Bytes → Event
  touch : ℕ → Bytes → Event

-- Each entry stands under its own identifier.
abbrev pub HasId : Bytes → ApiKey → Type 0
HasId i key = key.id ≡ i

module _ (lib : Credentials) where
  unfoldable pub step : Event → KeyStore → KeyStore
  step (generate now draws name tenant role expires_in) store =
      (generate_key lib now draws name tenant role expires_in store).0
  step (revoke id) store = (revoke_key id store).0
  step (delete id) store = (delete_key id store).0
  step (touch now id) store = touch_key now id store

  unfoldable pub run : List Event → KeyStore → KeyStore
  unfolding step
  run [] store = store
  run (e ∷ es) store = run es (step e store)

  pub record IsWellFormed (store : KeyStore) : Type 0 where
    pub distinct : HasDistinctKeys store.keys
    pub own : AllEntries HasId store.keys

  -- A property of the entries that every operation keeps: it holds of what is generated, and disabling or
  -- touching an entry keeps it.
  pub step-AllEntries {ℓ} :
      (P : Bytes → ApiKey → Type ℓ) (e : Event) (store : KeyStore)
      → ((i : Bytes) (key : ApiKey) → P i key → P i (record key { active = false }))
      → ((now : ℕ) (i : Bytes) (key : ApiKey)
          → P i key
          → P i (record key { last_used_at = some now }))
      → ((key : ApiKey)
          → (now : ℕ) (draws : Draws) (name tenant : Bytes) (role : Role) (expires_in : Option ℕ)
          → e ≡ generate now draws name tenant role expires_in
          → key.id ≡ draws.key_id
          → P draws.key_id key)
      → AllEntries P store.keys
      → AllEntries P (step e store).keys
  unfolding step generate_key revoke_key delete_key touch_key
  step-AllEntries P (generate now draws name tenant role expires_in) store disable mark made h =
      elim (Sum-cases (lib.hash_password (plaintext lib draws) draws.salt)) [
        | inl (e, failed) ↦ rw (failed, step, generate_key) h
        | inr (hash, hashed) ↦
            rw (hashed, step, generate_key)
              (insert-AllEntries P draws.key_id _ store.keys
                (made _ now draws name tenant role expires_in refl refl) h)
      ]
  step-AllEntries P (revoke id) store disable mark made h =
      elim (Option-cases (lookup id store.keys)) [
        | inl absent ↦ rw (absent, step, revoke_key) h
        | inr (key, found) ↦
            rw (found, step, revoke_key)
              (insert-AllEntries P id _ store.keys
                (disable id key (lookup-AllEntries P id key store.keys h found)) h)
      ]
  step-AllEntries P (delete id) store disable mark made h =
      elim (Option-cases (lookup id store.keys)) [
        | inl absent ↦ rw (absent, step, delete_key) h
        | inr (key, found) ↦ rw (found, step, delete_key) (remove-AllEntries P id store.keys h)
      ]
  step-AllEntries P (touch now id) store disable mark made h =
      elim (Option-cases (lookup id store.keys)) [
        | inl absent ↦ rw (absent, step, touch_key) h
        | inr (key, found) ↦
            rw (found, step, touch_key)
              (insert-AllEntries P id _ store.keys
                (mark now id key (lookup-AllEntries P id key store.keys h found)) h)
      ]

  step-HasDistinctKeys :
      (e : Event) (store : KeyStore)
      → HasDistinctKeys store.keys
      → HasDistinctKeys (step e store).keys
  unfolding step generate_key revoke_key delete_key touch_key
  step-HasDistinctKeys (generate now draws name tenant role expires_in) store h =
      elim (Sum-cases (lib.hash_password (plaintext lib draws) draws.salt)) [
        | inl (e, failed) ↦ rw (failed, step, generate_key) h
        | inr (hash, hashed) ↦
            rw (hashed, step, generate_key) (insert-HasDistinctKeys draws.key_id _ store.keys h)
      ]
  step-HasDistinctKeys (revoke id) store h = elim (Option-cases (lookup id store.keys)) [
    | inl absent ↦ rw (absent, step, revoke_key) h
    | inr (key, found) ↦ rw (found, step, revoke_key) (insert-HasDistinctKeys id _ store.keys h)
  ]
  step-HasDistinctKeys (delete id) store h = elim (Option-cases (lookup id store.keys)) [
    | inl absent ↦ rw (absent, step, delete_key) h
    | inr (key, found) ↦ rw (found, step, delete_key) (remove-HasDistinctKeys id store.keys h)
  ]
  step-HasDistinctKeys (touch now id) store h = elim (Option-cases (lookup id store.keys)) [
    | inl absent ↦ rw (absent, step, touch_key) h
    | inr (key, found) ↦ rw (found, step, touch_key) (insert-HasDistinctKeys id _ store.keys h)
  ]

  step-IsWellFormed :
      (e : Event) (store : KeyStore) → IsWellFormed store → IsWellFormed (step e store)
  step-IsWellFormed e store h = record {
    distinct = step-HasDistinctKeys e store h.distinct;
    own =
        step-AllEntries HasId e store (λ i key own. own) (λ now i key own. own)
          (λ key now draws name tenant role expires_in is_generate same. same) h.own;
  }

  run-IsWellFormed :
      (es : List Event) (store : KeyStore) → IsWellFormed store → IsWellFormed (run es store)
  unfolding run
  run-IsWellFormed [] store h = h
  run-IsWellFormed (e ∷ es) store h =
      run-IsWellFormed es (step e store) (step-IsWellFormed e store h)

  -- In a store that was made with a secret and put through any sequence of generations, revocations,
  -- deletions and touches, each key stands under its own identifier and no identifier stands twice.
  pub run-with_secret-IsWellFormed :
      (secret : Bytes) (es : List Event) → IsWellFormed (run es (with_secret secret))
  unfolding with_secret
  run-with_secret-IsWellFormed secret es =
      run-IsWellFormed es (with_secret secret) record { distinct = tt; own = tt }
