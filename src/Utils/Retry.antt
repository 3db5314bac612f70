-- ===== src/Utils/Retry.antt =====
-- `retry_with_backoff` of src/common/utils.rs: which call gives the result, and what is waited for.
use minikv.Prelude.{
  ltb→lt, and-eq-true, ℕ, zero, suc, ◌+◌, ◌-◌, ◌*◌, ◌<◌, ◌≡◌, refl, sym, ap, ◌∙◌, arith, Bool, true,
  false, ◌&&◌, Bool-cases, inl, inr, List, [], ◌∷◌, ltb, All, if◌then◌else◌,
}
use minikv.Errors.{Result, ok, err, is_retryable}
use minikv.Utils.{Retried, retry_loop, retry_with_backoff, at_once, slept_before}

-- The attempts from one on.
abbrev pub attempts : ℕ → ℕ → List ℕ
attempts first zero = []
attempts first (suc n) = first ∷ attempts (first + 1) n

-- Each delay twice the one before.
abbrev pub doubling : ℕ → ℕ → List ℕ
doubling delay zero = []
doubling delay (suc n) = delay ∷ doubling (delay * 2) n

module _ {ℓ} {A : Type ℓ} where
  -- A failure that another attempt may mend.
  abbrev pub can_retry : Result A → Bool
  can_retry (ok a) = false
  can_retry (err e) = is_retryable e

  step :
      (f : ℕ → Result A) (max_retries left attempt delay : ℕ)
      → retry_loop f max_retries (suc left) attempt delay ≡ (
          if can_retry (f attempt) && ltb attempt (max_retries - 1)
          then slept_before delay (retry_loop f max_retries left (attempt + 1) (delay * 2))
          else at_once (f attempt))
  unfolding retry_loop
  step f max_retries left attempt delay = go (f attempt)
    where
      go :
          (r : Result A)
          → elim r [
            | ok result ↦ at_once (ok result)
            | err e ↦
                if is_retryable e && ltb attempt (max_retries - 1)
                then slept_before delay (retry_loop f max_retries left (attempt + 1) (delay * 2))
                else at_once (err e)
          ]
            ≡ (if can_retry r && ltb attempt (max_retries - 1)
                then slept_before delay (retry_loop f max_retries left (attempt + 1) (delay * 2))
                else at_once r)
      go (ok a) = refl
      go (err e) = refl

  -- What a run of the loop did from an attempt on: some attempts failed and could be made again, and the
  -- one behind them gave the result.
  abbrev pub IsRetried : (ℕ → Result A) → ℕ → ℕ → ℕ → Retried A → Type ℓ
  IsRetried f max_retries attempt delay r =
      (n : ℕ) × (attempt + n < max_retries)
      × (r.result ≡ f (attempt + n))
      × (r.calls ≡ n + 1)
      × (r.sleeps ≡ doubling delay n)
      × All (λ i. can_retry (f i) ≡ true) (attempts attempt n)
      × ((can_retry (f (attempt + n)) && ltb (attempt + n) (max_retries - 1)) ≡ false)

  retry_loop-IsRetried :
      (f : ℕ → Result A) (max_retries left attempt delay : ℕ)
      → attempt + left ≡ max_retries
      → 0 < left
      → IsRetried f max_retries attempt delay (retry_loop f max_retries left attempt delay)
  retry_loop-IsRetried f max_retries zero attempt delay total some_left = absurd (omega arith)
  retry_loop-IsRetried f max_retries (suc left) attempt delay total some_left =
      elim (Bool-cases (can_retry (f attempt) && ltb attempt (max_retries - 1))) [
        | inr final ↦
            let here : attempt ≡ attempt + 0 = omega arith in
            rw (step f max_retries left attempt delay) (
              rw final (
                0,
                omega arith,
                ap f here,
                refl,
                refl,
                tt,
                ap (λ i. can_retry (f i) && ltb i (max_retries - 1)) (sym here) ∙ final,
              ))
        | inl again ↦
            let (mended, early) =
              and-eq-true (can_retry (f attempt)) (ltb attempt (max_retries - 1)) again in
            let (n, inside, result, calls, sleeps, failed, last) =
              retry_loop-IsRetried f max_retries left (attempt + 1) (delay * 2)
                (omega (arith, total)) (omega (arith, ltb→lt attempt (max_retries - 1) early)) in
            let next : attempt + 1 + n ≡ attempt + suc n = omega arith in
            rw (step f max_retries left attempt delay) (
              rw again (
                suc n,
                omega (arith, inside),
                result ∙ ap f next,
                omega (arith, calls),
                ap (λ ds. delay ∷ ds) sleeps,
                (mended, failed),
                ap (λ i. can_retry (f i) && ltb i (max_retries - 1)) (sym next) ∙ last,
              ))
      ]

  -- A function that is retried at most `max_retries` times, at least once, is called again only after an
  -- error that another attempt may mend, and after a wait that doubles each time; what is given back is
  -- the result of its last call, which is a success, an error of another kind, or that of the last
  -- attempt there is. The error "Max retries exceeded" is never made up.
  pub retry_with_backoff-IsRetried :
      (f : ℕ → Result A) (max_retries initial_delay : ℕ)
      → 0 < max_retries
      → IsRetried f max_retries 0 initial_delay (retry_with_backoff f max_retries initial_delay)
  unfolding retry_with_backoff
  retry_with_backoff-IsRetried f max_retries initial_delay some =
      retry_loop-IsRetried f max_retries max_retries 0 initial_delay (omega arith) some
