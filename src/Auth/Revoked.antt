-- ===== src/Auth/Revoked.antt =====
-- src/common/auth.rs: a key that was revoked or deleted authenticates nobody, whatever happens later.
use minikv.Prelude.{
  subst, ℕ, ◌≡◌, ◌≢◌, refl, sym, ap, ◌∙◌, arith, inl, inr, false, Bool-cases, Option, Option-cases,
  none, List, [], ◌∷◌, nat_eq, list_eq, list_beq_iff, ◌==◌,
}
use minikv.Bytes.{Bytes}
use minikv.HashMap.{HashMap, lookup, insert, remove, HasDistinctKeys}
use minikv.HashMap.Values.{AllEntries}
use minikv.Auth.{Role, ApiKey, AuthContext, ok, is_expired, Credentials, KeyStore}
use minikv.Auth.Store.{with_secret, Draws, revoke_key, delete_key, verdict, find_key, validate_key}
use minikv.Auth.Invariant.{
  Event, generate, revoke, delete, touch, HasId, step, run, IsWellFormed, step-AllEntries,
  run-with_secret-IsWellFormed,
}

abbrev IsDisabled : Bytes → Bytes → ApiKey → Type 0
IsDisabled id i key = key.id ≡ id → key.active ≡ false

absent-IsDisabled :
    (id : Bytes) (m : HashMap Bytes ApiKey)
    → lookup id m ≡ none
    → AllEntries HasId m
    → AllEntries (IsDisabled id) m
unfolding lookup
absent-IsDisabled id [] absent own = tt
absent-IsDisabled id ((j, w) ∷ m) absent (is_j, own) = elim (Bool-cases (j == id)) [
  | inl same ↦ ground (arith, absent, same)
  | inr other ↦ (
    λ is_id. ground (arith, other, (list_beq_iff j id).1 (sym is_j ∙ is_id)),
    absent-IsDisabled id m (ground (arith, absent, other)) own,
  )
]

insert-IsDisabled :
    (id : Bytes) (key : ApiKey) (m : HashMap Bytes ApiKey)
    → key.active ≡ false
    → HasDistinctKeys m
    → AllEntries HasId m
    → AllEntries (IsDisabled id) (insert id key m)
unfolding insert
insert-IsDisabled id key [] off distinct own = (λ is_id. off, tt)
insert-IsDisabled id key ((j, w) ∷ m) off (fresh, distinct) (is_j, own) =
    elim (Bool-cases (j == id)) [
      | inl same ↦ rw same (
        λ is_id. off,
        absent-IsDisabled id m (ap (λ i. lookup i m) (sym ((list_beq_iff j id).0 same)) ∙ fresh)
            own,
      )
      | inr other ↦ rw other (
        λ is_id. ground (arith, other, (list_beq_iff j id).1 (sym is_j ∙ is_id)),
        insert-IsDisabled id key m off distinct own,
      )
    ]

remove-IsDisabled :
    (id : Bytes) (m : HashMap Bytes ApiKey)
    → AllEntries HasId m
    → AllEntries (IsDisabled id) (remove id m)
unfolding remove
remove-IsDisabled id [] own = tt
remove-IsDisabled id ((j, w) ∷ m) (is_j, own) = elim (Bool-cases (j == id)) [
  | inl same ↦ rw same (remove-IsDisabled id m own)
  | inr other ↦ rw other (
    λ is_id. ground (arith, other, (list_beq_iff j id).1 (sym is_j ∙ is_id)),
    remove-IsDisabled id m own,
  )
]

-- A revocation or a deletion of the key.
pub data Withdrawal : Bytes → Event → Type 0 where
  revoked : (id : Bytes) → Withdrawal id (revoke id)
  deleted : (id : Bytes) → Withdrawal id (delete id)

-- No later key is given the identifier.
abbrev pub DrawsOther : Bytes → List Event → Type 0
DrawsOther id [] = Unit {0}
DrawsOther id (generate now draws name tenant role expires_in ∷ es) =
    (draws.key_id ≢ id) × DrawsOther id es
DrawsOther id (revoke i ∷ es) = DrawsOther id es
DrawsOther id (delete i ∷ es) = DrawsOther id es
DrawsOther id (touch now i ∷ es) = DrawsOther id es

module _ (lib : Credentials) where
  revoke-IsDisabled :
      (id : Bytes) (store : KeyStore)
      → IsWellFormed lib store
      → AllEntries (IsDisabled id) (revoke_key id store).0.keys
  unfolding revoke_key
  revoke-IsDisabled id store h = elim (Option-cases (lookup id store.keys)) [
    | inl absent ↦ rw (absent, revoke_key) (absent-IsDisabled id store.keys absent h.own)
    | inr (key, found) ↦
        rw (found, revoke_key) (insert-IsDisabled id _ store.keys refl h.distinct h.own)
  ]

  delete-IsDisabled :
      (id : Bytes) (store : KeyStore)
      → IsWellFormed lib store
      → AllEntries (IsDisabled id) (delete_key id store).0.keys
  unfolding delete_key
  delete-IsDisabled id store h = elim (Option-cases (lookup id store.keys)) [
    | inl absent ↦ rw (absent, delete_key) (absent-IsDisabled id store.keys absent h.own)
    | inr (key, found) ↦ rw (found, delete_key) (remove-IsDisabled id store.keys h.own)
  ]

  find_key-IsDisabled :
      (now : ℕ) (text id : Bytes) (m : HashMap Bytes ApiKey) (ctx : AuthContext)
      → AllEntries (IsDisabled id) m
      → find_key lib now text m ≡ ok ctx
      → ctx.key_id ≢ id
  unfolding find_key verdict is_expired
  find_key-IsDisabled now text id [] ctx h found = ground (arith, found)
  find_key-IsDisabled now text id ((j, w) ∷ m) ctx (off, h) found =
      ground (arith, find_key-IsDisabled now text id m ctx h, off, found)

  withdrawn-IsDisabled :
      (id : Bytes) (e : Event) (store : KeyStore)
      → Withdrawal id e
      → IsWellFormed lib store
      → AllEntries (IsDisabled id) (step lib e store).keys
  unfolding step
  withdrawn-IsDisabled _ _ store (revoked id) h = revoke-IsDisabled id store h
  withdrawn-IsDisabled _ _ store (deleted id) h = delete-IsDisabled id store h

  made-IsDisabled :
      (id : Bytes) (e : Event) (es : List Event)
      → DrawsOther id (e ∷ es)
      → (key : ApiKey) (now : ℕ) (draws : Draws) (name tenant : Bytes) (role : Role)
        (expires_in : Option ℕ)
      → e ≡ generate now draws name tenant role expires_in
      → key.id ≡ draws.key_id
      → IsDisabled id draws.key_id key
  made-IsDisabled id e es other key now draws name tenant role expires_in is_generate same is_id =
      absurd ((subst (λ x. DrawsOther id (x ∷ es)) is_generate other).0 (sym same ∙ is_id))

  later_events :
      (id : Bytes) (e : Event) (es : List Event) → DrawsOther id (e ∷ es) → DrawsOther id es
  later_events id (generate now draws name tenant role expires_in) es (other, rest) = rest
  later_events id (revoke i) es rest = rest
  later_events id (delete i) es rest = rest
  later_events id (touch now i) es rest = rest

  run-IsDisabled :
      (id : Bytes) (es : List Event) (store : KeyStore)
      → DrawsOther id es
      → AllEntries (IsDisabled id) store.keys
      → AllEntries (IsDisabled id) (run lib es store).keys
  unfolding run
  run-IsDisabled id [] store others h = h
  run-IsDisabled id (e ∷ es) store others h =
      run-IsDisabled id es (step lib e store) (later_events id e es others) (
        step-AllEntries lib (IsDisabled id) e store (λ i key off is_id. refl) (λ now i key off. off)
          (made-IsDisabled id e es others) h)

  -- Once a key has been revoked or deleted, in a store with any history, no text validates as that key
  -- after any further sequence of operations, as long as no new key is given its identifier.
  pub validate_key-Withdrawal :
      (secret id : Bytes) (earlier later : List Event) (withdrawal : Event) (now : ℕ) (text : Bytes)
      (ctx : AuthContext)
      → Withdrawal id withdrawal
      → DrawsOther id later
      → validate_key lib now text
          (run lib later (step lib withdrawal (run lib earlier (with_secret secret))))
        ≡ ok ctx
      → ctx.key_id ≢ id
  unfolding validate_key
  validate_key-Withdrawal secret id earlier later withdrawal now text ctx is_withdrawal others
        valid =
      let store = run lib earlier (with_secret secret) in
      let after = run lib later (step lib withdrawal store) in
      let off = run-IsDisabled id later (step lib withdrawal store) others (
        withdrawn-IsDisabled id withdrawal store is_withdrawal
          (run-with_secret-IsWellFormed lib secret earlier)) in
      find_key-IsDisabled now text id after.keys ctx off (ground (arith, valid))
