-- ===== src/HashMap/Values.antt =====
-- A property of all entries of a map.
use minikv.Prelude.{Bool, ◌≡◌, arith, some, [], ◌∷◌, Eq, ◌==◌, Bool-cases, inl, inr}
use minikv.HashMap.Defs.{retain, HashMap, lookup, insert, remove}

module _ {ℓ κ μ} {K : Type ℓ} {V : Type κ} ⦃e : Eq K⦄ (P : K → V → Type μ) where
  abbrev pub AllEntries : HashMap K V → Type μ
  AllEntries [] = Unit
  AllEntries ((k, v) ∷ m) = P k v × AllEntries m

  pub insert-AllEntries :
      (k : K) (v : V) (m : HashMap K V) → P k v → AllEntries m → AllEntries (insert k v m)
  unfolding insert
  insert-AllEntries k v [] p h = (p, tt)
  insert-AllEntries k v ((j, w) ∷ m) p (q, h) = elim (Bool-cases (j == k)) [
    | inl same ↦ rw same (p, h)
    | inr other ↦ rw other (q, insert-AllEntries k v m p h)
  ]

  pub remove-AllEntries : (k : K) (m : HashMap K V) → AllEntries m → AllEntries (remove k m)
  unfolding remove
  remove-AllEntries k [] h = tt
  remove-AllEntries k ((j, w) ∷ m) (q, h) = elim (Bool-cases (j == k)) [
    | inl same ↦ rw same (remove-AllEntries k m h)
    | inr other ↦ rw other (q, remove-AllEntries k m h)
  ]

  pub lookup-AllEntries :
      (k : K) (v : V) (m : HashMap K V) → AllEntries m → lookup k m ≡ some v → P k v
  unfolding lookup
  lookup-AllEntries k v [] h found = ground (arith, found)
  lookup-AllEntries k v ((j, w) ∷ m) (q, h) found = elim (Bool-cases (j == k)) [
    | inl same ↦
        (let is_v : w ≡ v = ground (arith, found, same) in rw (← (e.eqb_iff j k).0 same, ← is_v) q)
    | inr other ↦ lookup-AllEntries k v m h (ground (arith, found, other))
  ]

  pub retain-AllEntries :
      (keep : K → V → Bool) (m : HashMap K V) → AllEntries m → AllEntries (retain keep m)
  unfolding retain
  retain-AllEntries keep [] h = tt
  retain-AllEntries keep ((j, w) ∷ m) (q, h) = elim (Bool-cases (keep j w)) [
    | inl kept ↦ rw kept (q, retain-AllEntries keep m h)
    | inr gone ↦ rw gone (retain-AllEntries keep m h)
  ]
