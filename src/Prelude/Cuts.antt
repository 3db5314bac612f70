-- ===== src/Prelude/Cuts.antt =====
-- Cuts of a list that lie within, or beyond, the first of two lists.
use Prim.Native.Nat.{ℕ, zero, suc, ◌+◌, ◌≤◌}
use mathlib.Core.Path.{◌≡◌, refl, sym, ap}
use mathlib.Core.List.{List, [], ◌∷◌, ◌++◌}
use native.Mathlib.Omega.{arith}
use native.Mathlib.Nat.{zero-add}
use minikv.Prelude.Lists.{length, take, drop}

suc_add : (m k : ℕ) → suc m + k ≡ suc (m + k)
suc_add m k = omega arith

module _ {ℓ} {A : Type ℓ} where
  pub drop-append_within :
      (n : ℕ) (xs ys : List A) → n ≤ length xs → drop n (xs ++ ys) ≡ drop n xs ++ ys
  drop-append_within zero xs ys h = refl
  drop-append_within (suc n) [] ys h = absurd (omega arith)
  drop-append_within (suc n) (x ∷ xs) ys h = drop-append_within n xs ys (omega arith)

  pub take-append_beyond :
      (xs ys : List A) (k : ℕ) → take (length xs + k) (xs ++ ys) ≡ xs ++ take k ys
  take-append_beyond [] ys k = rw zero-add
  take-append_beyond (x ∷ xs) ys k =
      rw (suc_add (length xs) k) (ap (λ l. x ∷ l) (take-append_beyond xs ys k))

  take_none : (k : ℕ) → take {A = A} k [] ≡ []
  take_none zero = refl
  take_none (suc k) = refl

  pub drop-take : (n k : ℕ) (xs : List A) → drop n (take (n + k) xs) ≡ take k (drop n xs)
  drop-take zero k xs = rw zero-add
  drop-take (suc n) k [] = rw (suc_add n k, take_none k) refl
  drop-take (suc n) k (x ∷ xs) = rw (suc_add n k) (drop-take n k xs)

  drop_none : (k : ℕ) → drop {A = A} k [] ≡ []
  drop_none zero = refl
  drop_none (suc k) = refl

  pub drop-drop : (m n : ℕ) (xs : List A) → drop (n + m) xs ≡ drop m (drop n xs)
  drop-drop m zero xs = rw zero-add refl
  drop-drop m (suc n) [] = rw (suc_add n m) (sym (drop_none m))
  drop-drop m (suc n) (x ∷ xs) = rw (suc_add n m) (drop-drop m n xs)
