-- ===== src/Bytes/Read.antt =====
-- A `BufReader` over a file: the bytes that are still to be read. `read_exact` fails with
-- `UnexpectedEof` where the file is too short, and a caller's `?` passes the error on.
use minikv.Prelude.{
  ℕ, ◌<◌, ◌≤◌, ◌≡◌, ap, refl, ◌++◌, arith, leb, le→leb, lt→not_leb, length, take, drop,
  length-append, take-append, drop-append, if◌then◌else◌,
}
use minikv.Errors.{Error, Result, ok, err, io, unexpected_eof}
use minikv.Bytes.Word.{Bytes}

abbrev pub Reader {ℓ} : Type ℓ → Type ℓ
Reader A = Bytes → Result (A × Bytes)

abbrev pub pure {ℓ} : {A : Type ℓ} → A → Reader A
pure a s = ok (a, s)

abbrev pub fail {ℓ} : {A : Type ℓ} → Error → Reader A
fail e s = err e

-- A result that does not depend on the reader.
abbrev pub lift {ℓ} : {A : Type ℓ} → Result A → Reader A
lift (ok a) s = ok (a, s)
lift (err e) s = err e

infixl 5 ◌>>=◌ ◌>>◌
abbrev pub ◌>>=◌ {ℓ κ} : {A : Type ℓ} {B : Type κ} → Reader A → (A → Reader B) → Reader B
◌>>=◌ m f s = elim (m s) [ ok (a, s') ↦ f a s' | err e ↦ err e ]

abbrev pub ◌>>◌ {ℓ} : {B : Type ℓ} → Reader (Unit {0}) → Reader B → Reader B
m >> k = m >>= λ _. k

unfoldable pub read_exact : ℕ → Reader Bytes
read_exact n s = if leb n (length s) then ok (take n s, drop n s) else err (io unexpected_eof)

-- What was written at the front is read back, and the rest is left.
pub read_exact-append :
    (n : ℕ) (xs ys : Bytes) → length xs ≡ n → read_exact n (xs ++ ys) ≡ ok (xs, ys)
unfolding read_exact
read_exact-append n xs ys e =
    rw (← e, le→leb (length xs) (length (xs ++ ys)) (omega (arith, length-append {0} xs ys)))
      (rw (take-append, drop-append) refl)

-- A long enough file is cut.
pub read_exact_ok : (n : ℕ) (s : Bytes) → n ≤ length s → read_exact n s ≡ ok (take n s, drop n s)
unfolding read_exact
read_exact_ok n s h = rw (le→leb n (length s) h)

-- Too short a file fails.
pub read_exact_eof : (n : ℕ) (s : Bytes) → length s < n → read_exact n s ≡ err (io unexpected_eof)
unfolding read_exact
read_exact_eof n s h = rw (lt→not_leb n (length s) h)

-- A step that is known to succeed, and the rest of the reader.
module _ {ℓ} {B : Type ℓ} where
  pub bind-eq {κ} :
      {A : Type κ} (m : Reader A) (s : Bytes) (a : A) (s' : Bytes) (f : A → Reader B)
      → m s ≡ ok (a, s')
      → (m >>= f) s ≡ f a s'
  bind-eq m s a s' f e = ap (λ r. elim r [ ok (a, s) ↦ f a s | err x ↦ err x ]) e

  pub bind-read_exact :
      (n : ℕ) (xs ys : Bytes) (f : Bytes → Reader B)
      → length xs ≡ n
      → (read_exact n >>= f) (xs ++ ys) ≡ f xs ys
  bind-read_exact n xs ys f e =
      bind-eq (read_exact n) (xs ++ ys) xs ys f (read_exact-append n xs ys e)

  pub bind-lift {κ} :
      {A : Type κ} (r : Result A) (a : A) (f : A → Reader B) (s : Bytes)
      → r ≡ ok a
      → (lift r >>= f) s ≡ f a s
  bind-lift r a f s e = ap (λ r. (lift r >>= f) s) e
