-- ===== src/Bytes/Encoded.antt =====
-- Encoded values read back: words, sizes and text.
use minikv.Prelude.{ℕ, ◌%◌, ◌^◌, ◌≡◌, sym, true, ◌++◌, ◌∷◌, [], arith, length}
use minikv.Errors.{Error, ok}
use minikv.Bytes.Word.{
  Bytes, IsU32, le_bytes, from_le_bytes, from_le_bytes-le_bytes, length-le_bytes,
}
use minikv.Bytes.Read.{Reader, ◌>>=◌, read_exact, bind-read_exact}
use minikv.Bytes.Text.{is_utf8, from_utf8}
use native.Mathlib.Nat.{mod-eq_of_lt}

-- A size that was cast to `u32` and written, for a size that it can hold.
pub read_size : (n : ℕ) → IsU32 n → from_le_bytes (le_bytes 4 (n % 2 ^ 32)) ≡ n
read_size n h = rw (mod-eq_of_lt h) (from_le_bytes-le_bytes 4 n (omega arith))

pub from_utf8_ok : (e : Error) (bs : Bytes) → is_utf8 bs ≡ true → from_utf8 e bs ≡ ok bs
unfolding from_utf8
from_utf8_ok e bs h = rw h

pub one_byte : (b : ℕ) → from_le_bytes (b ∷ []) ≡ b
unfolding from_le_bytes
one_byte b = omega arith

module _ {ℓ} {B : Type ℓ} where
  -- A word of `k` bytes, as its bytes.
  pub bind-word :
      (k v : ℕ) (s : Bytes) (f : Bytes → Reader B)
      → (read_exact k >>= f) (le_bytes k v ++ s) ≡ f (le_bytes k v) s
  bind-word k v s f = bind-read_exact k (le_bytes k v) s f (length-le_bytes k v)

  -- A text behind its size.
  pub bind-sized :
      (text s : Bytes) (f : Bytes → Reader B)
      → IsU32 (length text)
      → (read_exact (from_le_bytes (le_bytes 4 (length text % 2 ^ 32))) >>= f) (text ++ s)
        ≡ f text s
  bind-sized text s f h = bind-read_exact _ text s f (sym (read_size (length text) h))
