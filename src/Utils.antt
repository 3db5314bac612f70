-- ===== src/Utils.antt =====
-- src/common/utils.rs: the retries with growing delays, and the check of a key.
pub mod Retry
mod Tests
use minikv.Prelude.{
  ℕ, zero, suc, ◌+◌, ◌-◌, ◌*◌, Bool, true, false, ◌&&◌, ◌||◌, List, [], ◌∷◌, ltb, leb, ◌==◌, nat_eq,
  length, if◌then◌else◌,
}
use minikv.Bytes.{Bytes}
use minikv.Errors.{Error, Result, ok, err, internal, invalid_config, is_retryable}

-- The result, the sleeps before it, and how often the function was called.
pub record Retried {ℓ} (A : Type ℓ) : Type ℓ where
  pub result : Result A
  pub sleeps : List ℕ
  pub calls : ℕ

module _ {ℓ} {A : Type ℓ} where
  abbrev pub slept_before : ℕ → Retried A → Retried A
  slept_before delay r = record r { sleeps = delay ∷ r.sleeps; calls = r.calls + 1 }

  abbrev pub at_once : Result A → Retried A
  at_once result = record { result = result; sleeps = []; calls = 1 }

  -- The loop, with the attempts that it has left. `f` gives the result of each call by its number.
  unfoldable pub retry_loop : (ℕ → Result A) → ℕ → ℕ → ℕ → ℕ → Retried A
  retry_loop f max_retries zero attempt delay = record {
    result = err (internal "Max retries exceeded");
    sleeps = [];
    calls = 0;
  }
  retry_loop f max_retries (suc left) attempt delay =
      let later = retry_loop f max_retries left (attempt + 1) (delay * 2) in
      elim (f attempt) [
        | ok result ↦ at_once (ok result)
        | err e ↦
            if is_retryable e && ltb attempt (max_retries - 1)
            then slept_before delay later
            else at_once (err e)
      ]

  unfoldable pub retry_with_backoff : (ℕ → Result A) → ℕ → ℕ → Retried A
  unfolding retry_loop
  retry_with_backoff f max_retries initial_delay =
      retry_loop f max_retries max_retries 0 initial_delay

-- `key.chars().any(|c| c.is_control())` on UTF-8: U+0000 to U+001F, U+007F, and U+0080 to U+009F, which
-- are the byte 0xC2 and one below 0xA0.
unfoldable pub has_control : Bytes → Bool
has_control [] = false
has_control (b ∷ []) = ltb b 0x20 || (b == 0x7f)
has_control (b ∷ c ∷ rest) =
    ltb b 0x20 || (b == 0x7f) || ((b == 0xc2) && ltb c 0xa0) || has_control (c ∷ rest)

unfoldable pub validate_key : Bytes → Result (Unit {0})
unfolding has_control
validate_key key =
    if length key == 0
    then err (invalid_config "key cannot be empty")
    else if ltb 1024 (length key)
    then err (invalid_config "key too long (max 1024 bytes)")
    else if has_control key
    then err (invalid_config "key contains invalid characters")
    else ok tt
