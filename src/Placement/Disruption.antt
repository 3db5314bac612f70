-- ===== src/Placement/Disruption.antt =====
-- What `select_replicas` of src/common/hash.rs does when a node goes away.
use minikv.Prelude.{
  list_beq_iff, le→leb, zero, suc, ℕ, ◌≤◌, ◌≡◌, refl, ap, sym, arith, Bool, true, false, ◌||◌,
  Bool-cases, inl, inr, List, [], ◌∷◌, take, All, leb, leb→le, nat_eq, list_eq, ◌==◌, if◌then◌else◌,
}
use minikv.Bytes.{Bytes}
use minikv.External.{Blake3}
use minikv.Placement.{place, by_weight, weight, hrw_hash, select_replicas}
use minikv.Placement.Replicas.{IsFalling, by_weight-IsFalling}

abbrev pub without : Bytes → List Bytes → List Bytes
without x [] = []
without x (y ∷ l) = let rest = without x l in if y == x then rest else y ∷ rest

abbrev pub has : Bytes → List Bytes → Bool
has x [] = false
has x (y ∷ l) = (y == x) || has x l

abbrev AllBelow : (Bytes → ℕ) → ℕ → List Bytes → Type 0
AllBelow w n l = All (λ y. w y ≤ n) l

falling-AllBelow :
    (w : Bytes → ℕ) (n : ℕ) (x : Bytes) (l : List Bytes)
    → w x ≤ n
    → IsFalling w (x ∷ l)
    → AllBelow w n (x ∷ l)
falling-AllBelow w n x [] le h = (le, tt)
falling-AllBelow w n x (y ∷ l) le (step, h) = (le, falling-AllBelow w n y l (omega arith) h)

without-AllBelow :
    (w : Bytes → ℕ) (n : ℕ) (x : Bytes) (l : List Bytes)
    → AllBelow w n l
    → AllBelow w n (without x l)
without-AllBelow w n x [] h = tt
without-AllBelow w n x (y ∷ l) (le, h) = ground (arith, without-AllBelow w n x l h)

place_front :
    (w : Bytes → ℕ) (y : Bytes) (l : List Bytes) → AllBelow w (w y) l → place w y l ≡ y ∷ l
unfolding place
place_front w y [] h = refl
place_front w y (z ∷ l) (le, h) = rw (le→leb (w z) (w y) le) refl

tail_falls : (w : Bytes → ℕ) (x : Bytes) (l : List Bytes) → IsFalling w (x ∷ l) → IsFalling w l
tail_falls w x [] h = tt
tail_falls w x (y ∷ l) (le, h) = h

without-place :
    (w : Bytes → ℕ) (x y : Bytes) (l : List Bytes)
    → IsFalling w l
    → without x (place w y l) ≡ (if y == x then without x l else place w y (without x l))
unfolding place
without-place w x y [] h = refl
without-place w x y (z ∷ l) h = elim (Bool-cases (leb (w z) (w y))) [
  | inl front ↦ rw front (
      ap (λ r. if y == x then without x (z ∷ l) else r)
        (sym (
          place_front w y (without x (z ∷ l)) (
            without-AllBelow w (w y) x (z ∷ l)
              (falling-AllBelow w (w y) z l (leb→le _ _ front) h)))))
  | inr behind ↦ ground (arith, behind, without-place w x y l (tail_falls w z l h))
]

by_weight-without :
    (w : Bytes → ℕ) (x : Bytes) (l : List Bytes)
    → by_weight w (without x l) ≡ without x (by_weight w l)
unfolding by_weight
by_weight-without w x [] = refl
by_weight-without w x (y ∷ l) =
    ground (
      arith,
      without-place w x y (by_weight w l) (by_weight-IsFalling w l),
      by_weight-without w x l,
    )

take-without :
    (n : ℕ) (x : Bytes) (l : List Bytes)
    → has x (take n l) ≡ false
    → take n (without x l) ≡ take n l
take-without zero x l h = refl
take-without (suc n) x [] h = refl
take-without (suc n) x (y ∷ l) h = ground (arith, h, take-without n x l)

has-take_more :
    (n : ℕ) (y : Bytes) (l : List Bytes) → has y (take n l) ≡ true → has y (take (suc n) l) ≡ true
has-take_more zero y l h = ground (arith, h)
has-take_more (suc n) y [] h = ground (arith, h)
has-take_more (suc n) y (z ∷ l) h = ground (arith, h, has-take_more n y l)

has-take-without :
    (n : ℕ) (x y : Bytes) (l : List Bytes)
    → (x == y) ≡ false
    → has y (take n l) ≡ true
    → has y (take n (without x l)) ≡ true
has-take-without zero x y l differ h = h
has-take-without (suc n) x y [] differ h = h
has-take-without (suc n) x y (z ∷ l) differ h = elim (Bool-cases (z == x)) [
  | inl same ↦
      let other : (z == y) ≡ false = rw ((list_beq_iff z x).0 same) differ in
      let here : has y (take n l) ≡ true = ground (arith, h, other) in
      rw same (has-take_more n y (without x l) (has-take-without n x y l differ here))
  | inr apart ↦ ground (arith, apart, h, has-take-without n x y l differ)
]

module _ (b3 : Blake3) where
  -- When a node goes away, no other replica of a key moves: each node that was selected for the key and
  -- is another one is selected among those that are left, for the same number of replicas.
  pub select_replicas-without :
      (key : Bytes) (nodes : List Bytes) (n : ℕ) (gone other : Bytes)
      → (gone == other) ≡ false
      → has other (select_replicas b3 key nodes n) ≡ true
      → has other (select_replicas b3 key (without gone nodes) n) ≡ true
  unfolding select_replicas hrw_hash
  select_replicas-without key nodes n gone other differ here =
      rw (by_weight-without (weight b3 key) gone nodes)
        (has-take-without n gone other (by_weight (weight b3 key) nodes) differ here)

  -- When the node was not selected, the replicas are the same, in the same order.
  pub select_replicas_unselected :
      (key : Bytes) (nodes : List Bytes) (n : ℕ) (gone : Bytes)
      → has gone (select_replicas b3 key nodes n) ≡ false
      → select_replicas b3 key (without gone nodes) n ≡ select_replicas b3 key nodes n
  unfolding select_replicas hrw_hash
  select_replicas_unselected key nodes n gone away =
      rw (by_weight-without (weight b3 key) gone nodes)
        (take-without n gone (by_weight (weight b3 key) nodes) away)
