-- ===== src/HashMap/Laws.antt =====
-- Laws of the map operations, in `if` form.
use minikv.Prelude.{
  false, ◌++◌, ◌+◌, ◌≡◌, refl, Bool, Option, none, some, [], ◌∷◌, arith, Eq, ◌==◌, eq_refl,
  if◌then◌else◌, length,
}
use minikv.HashMap.Defs.{HashMap, lookup, insert, remove, retain, contains_key, HasDistinctKeys}

-- A value that passes a test on its key.
abbrev pub kept {ℓ} : {V : Type ℓ} → (V → Bool) → Option V → Option V
kept p none = none
kept p (some v) = if p v then some v else none

module _ {ℓ κ} {K : Type ℓ} {V : Type κ} ⦃e : Eq K⦄ where
  pub lookup-insert :
      (key other : K) (value : V) (m : HashMap K V)
      → lookup other (insert key value m) ≡ (if key == other then some value else lookup other m)
  unfolding lookup insert
  lookup-insert k j v [] = refl
  lookup-insert k j v ((i, w) ∷ m) =
      ground (arith, e.eqb_iff k j, e.eqb_iff i k, e.eqb_iff i j, lookup-insert k j v m)

  pub lookup-remove :
      (k j : K) (m : HashMap K V) → lookup j (remove k m) ≡ (if k == j then none else lookup j m)
  unfolding lookup remove
  lookup-remove k j [] = ground arith
  lookup-remove k j ((i, w) ∷ m) =
      ground (arith, e.eqb_iff k j, e.eqb_iff i k, e.eqb_iff i j, lookup-remove k j m)

  pub lookup-insert_self : (k : K) (v : V) (m : HashMap K V) → lookup k (insert k v m) ≡ some v
  lookup-insert_self k v m = simp (lookup-insert, eq_refl)

  pub lookup-remove_self : (k : K) (m : HashMap K V) → lookup k (remove k m) ≡ none
  lookup-remove_self k m = simp (lookup-remove, eq_refl)

  pub lookup-retain :
      (p : K → V → Bool) (k : K) (m : HashMap K V)
      → HasDistinctKeys m
      → lookup k (retain p m) ≡ kept (p k) (lookup k m)
  unfolding lookup retain
  lookup-retain p k [] h = refl
  lookup-retain p k ((i, w) ∷ m) (fresh, h) = ground (arith, e.eqb_iff i k, lookup-retain p k m h)

  pub insert-HasDistinctKeys :
      (k : K) (v : V) (m : HashMap K V) → HasDistinctKeys m → HasDistinctKeys (insert k v m)
  unfolding lookup insert
  insert-HasDistinctKeys k v [] h = (refl, tt)
  insert-HasDistinctKeys k v ((i, w) ∷ m) (fresh, h) =
      ground
        (arith, e.eqb_iff i k, e.eqb_iff k i, lookup-insert k i v m, insert-HasDistinctKeys k v m h)

  pub remove-HasDistinctKeys :
      (k : K) (m : HashMap K V) → HasDistinctKeys m → HasDistinctKeys (remove k m)
  unfolding lookup remove
  remove-HasDistinctKeys k [] h = tt
  remove-HasDistinctKeys k ((i, w) ∷ m) (fresh, h) =
      ground (arith, e.eqb_iff i k, lookup-remove k i m, remove-HasDistinctKeys k m h)

  pub retain-HasDistinctKeys :
      (p : K → V → Bool) (m : HashMap K V) → HasDistinctKeys m → HasDistinctKeys (retain p m)
  unfolding retain
  retain-HasDistinctKeys p [] h = tt
  retain-HasDistinctKeys p ((i, w) ∷ m) (fresh, h) =
      ground (arith, lookup-retain p i m h, retain-HasDistinctKeys p m h)

  pub length-insert :
      (k : K) (v : V) (m : HashMap K V)
      → length (insert k v m) ≡ (if contains_key k m then length m else length m + 1)
  unfolding lookup insert
  length-insert k v [] = omega arith
  length-insert k v ((i, w) ∷ m) = ground (arith, e.eqb_iff i k, length-insert k v m)

  pub remove_absent : (k : K) (m : HashMap K V) → lookup k m ≡ none → remove k m ≡ m
  unfolding lookup remove
  remove_absent k [] h = refl
  remove_absent k ((i, w) ∷ m) h = ground (arith, remove_absent k m)

  pub remove-head :
      (k : K) (v : V) (m : HashMap K V) → lookup k m ≡ none → remove k ((k, v) ∷ m) ≡ m
  unfolding remove
  remove-head k v m h = rw (eq_refl k) (remove_absent k m h)

  pub length-remove :
      (k : K) (m : HashMap K V)
      → HasDistinctKeys m
      → length (remove k m) + (if contains_key k m then 1 else 0) ≡ length m
  unfolding lookup remove
  length-remove k [] h = omega arith
  length-remove k ((i, w) ∷ m) (fresh, h) =
      ground (arith, e.eqb_iff i k, length-remove k m h, remove_absent k m)

pub ruleset map_laws = (lookup-insert, lookup-remove, lookup-insert_self, lookup-remove_self)

-- A map built by inserting its entries in order.
module _ {ℓ κ} {K : Type ℓ} {V : Type κ} ⦃e : Eq K⦄ where
  pub insert_fresh :
      (k : K) (v : V) (m : HashMap K V) → lookup k m ≡ none → insert k v m ≡ m ++ (k, v) ∷ []
  unfolding lookup insert
  insert_fresh k v [] h = refl
  insert_fresh k v ((i, w) ∷ m) h = ground (arith, insert_fresh k v m)

  lookup-append_cons :
      (k j : K) (v : V) (a b : HashMap K V)
      → lookup j (a ++ (k, v) ∷ b) ≡ none
      → (lookup j a ≡ none) × ((k == j) ≡ false)
  unfolding lookup
  lookup-append_cons k j v [] b h = ground arith
  lookup-append_cons k j v ((i, w) ∷ a) b h = ground (arith, lookup-append_cons k j v a b)

  -- In a map with distinct keys, no entry before another has its key.
  pub fresh_before :
      (k : K) (v : V) (a b : HashMap K V) → HasDistinctKeys (a ++ (k, v) ∷ b) → lookup k a ≡ none
  unfolding lookup
  fresh_before k v [] b h = refl
  fresh_before k v ((i, w) ∷ a) b (fresh, h) = ground (
    arith,
    lookup-append_cons k i v a b fresh,
    fresh_before k v a b h,
    e.eqb_iff i k,
    e.eqb_iff k i,
  )
