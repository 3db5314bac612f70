-- ===== src/Bytes/Progress.antt =====
-- Readers that look at nothing behind what they take, one rule for each way to build a reader.
use minikv.Prelude.{
  ℕ, zero, suc, [], ◌∷◌, ◌+◌, ◌≤◌, ◌≡◌, refl, ap, ◌∙◌, Bool, true, false, ◌++◌, arith, length, take,
  drop, length-append, length-drop, if◌then◌else◌,
}
use minikv.Errors.{Error, Result, ok, err}
use minikv.Bytes.Word.{Bytes}
use minikv.Bytes.Read.{Reader, pure, fail, lift, ◌>>=◌, read_exact, bind-eq}

-- A read that succeeds takes `used` bytes at least, and succeeds alike where more bytes follow.
pub record IsLocal {ℓ} {A : Type ℓ} (used : ℕ) (m : Reader A) : Type ℓ where
  pub extend :
      (s more : Bytes) (a : A) (r : Bytes) → m s ≡ ok (a, r) → m (s ++ more) ≡ ok (a, r ++ more)
  pub shorten : (s : Bytes) (a : A) (r : Bytes) → m s ≡ ok (a, r) → length r + used ≤ length s

take_front : (n : ℕ) (s more : Bytes) → n ≤ length s → take n (s ++ more) ≡ take n s
take_front zero s more h = refl
take_front (suc n) [] more h = absurd (omega arith)
take_front (suc n) (x ∷ s) more h = ap (λ l. x ∷ l) (take_front n s more (omega arith))

drop_front : (n : ℕ) (s more : Bytes) → n ≤ length s → drop n (s ++ more) ≡ drop n s ++ more
drop_front zero s more h = refl
drop_front (suc n) [] more h = absurd (omega arith)
drop_front (suc n) (x ∷ s) more h = drop_front n s more (omega arith)

pub IsLocal-read_exact : (n : ℕ) → IsLocal n (read_exact n)
unfolding read_exact
IsLocal-read_exact n = record {
  extend = λ s more a r h.
      ground (arith, length-append s more, take_front n s more, drop_front n s more);
  shorten = λ s a r h. ground (arith, length-drop n s);
}

module _ {ℓ} {A : Type ℓ} where
  pub IsLocal-pure : (a : A) → IsLocal 0 (pure a)
  IsLocal-pure a = record { extend = λ s more b r h. cc; shorten = λ s b r h. ground arith }

  pub IsLocal-fail : (e : Error) (n : ℕ) → IsLocal n (fail {A = A} e)
  IsLocal-fail e n = record { extend = λ s more a r h. cc; shorten = λ s a r h. cc }

  pub IsLocal-lift : (x : Result A) → IsLocal 0 (lift x)
  IsLocal-lift (ok a) = IsLocal-pure a
  IsLocal-lift (err e) = IsLocal-fail e 0

  pub IsLocal-if :
      (n : ℕ) (b : Bool) (m k : Reader A)
      → IsLocal n m
      → IsLocal n k
      → IsLocal n (if b then m else k)
  IsLocal-if n true m k hm hk = hm
  IsLocal-if n false m k hm hk = hk

  pub IsLocal-weaken : (n k : ℕ) (m : Reader A) → k ≤ n → IsLocal n m → IsLocal k m
  IsLocal-weaken n k m h l = record {
    extend = l.extend;
    shorten = λ s a r e. omega (arith, l.shorten s a r e);
  }

module _ {ℓ κ} {A : Type ℓ} {B : Type κ} where
  -- What a successful sequence of two readers did in between.
  pub >>=-eq-ok :
      (m : Reader A) (f : A → Reader B) (s : Bytes) {b : B} {r : Bytes}
      → (m >>= f) s ≡ ok (b, r)
      → (a : A) × (s' : Bytes) × (m s ≡ ok (a, s')) × (f a s' ≡ ok (b, r))
  >>=-eq-ok m f s {b} {r} h = go (m s) refl h
    where
      go :
          (x : Result (A × Bytes))
          → m s ≡ x
          → elim x [ ok (a, s') ↦ f a s' | err e ↦ err e ] ≡ ok (b, r)
          → (a : A) × (s' : Bytes) × (m s ≡ ok (a, s')) × (f a s' ≡ ok (b, r))
      go (ok (a, s')) e k = (a, s', e, k)
      go (err e) _ k = absurd cc

  pub IsLocal-bind :
      (n k : ℕ) (m : Reader A) (f : A → Reader B)
      → IsLocal n m
      → ((a : A) → IsLocal k (f a))
      → IsLocal (n + k) (m >>= f)
  IsLocal-bind n k m f hm hf = record {
    extend = λ s more b r h.
        let (a, s', p, q) = >>=-eq-ok m f s h in
        bind-eq m (s ++ more) a (s' ++ more) f (hm.extend s more a s' p)
        ∙ (hf a).extend s' more b r q;
    shorten = λ s b r h.
        let (a, s', p, q) = >>=-eq-ok m f s h in
        omega (arith, hm.shorten s a s' p, (hf a).shorten s' b r q);
  }

-- A read whose size is known only when the file is read.
pub IsLocal-read_some : (n : ℕ) → IsLocal 0 (read_exact n)
IsLocal-read_some n = IsLocal-weaken n 0 (read_exact n) (omega arith) (IsLocal-read_exact n)
