-- ===== src/RateLimit/Burst.antt =====
-- src/common/ratelimit.rs: what a client gets that asks again and again at one instant.
use minikv.Prelude.{
  le→leb, ℕ, zero, suc, ◌+◌, ◌-◌, ◌^◌, ◌<◌, ◌≤◌, ◌≡◌, refl, sym, ap, ◌∙◌, arith, Bool, true, false,
  Option, some, none, Option-cases, inl, inr, List, [], ◌∷◌, nat_eq, list_eq, if◌then◌else◌,
}
use minikv.Bytes.{Bytes}
use minikv.HashMap.{lookup, insert}
use minikv.HashMap.Laws.{lookup-insert_self}
use minikv.RateLimit.Calls.{check_live, check_dead}
use minikv.RateLimit.{
  Float, RateLimitConfig, TokenBucket, RateLimiter, RateLimitResult, allowed, limited, refill,
  try_consume, remaining, retry_after, new_bucket, bucket_of, finish, check,
}

-- What a client without a token is answered: the wait, unless making it panics.
abbrev pub refusal : Option ℕ → ℕ → Option RateLimitResult
refusal wait limit = elim wait [ none ↦ none | some w ↦ some (limited w limit) ]

-- The answers to a number of requests, from a number of tokens on: each token lets one request
-- through, and then each is refused.
abbrev pub answers : Option ℕ → ℕ → ℕ → ℕ → List (Option RateLimitResult)
answers wait limit left zero = []
answers wait limit zero (suc k) = refusal wait limit ∷ answers wait limit zero k
answers wait limit (suc left) (suc k) = some (allowed left limit) ∷ answers wait limit left k

module _ (float : Float) where
  -- Requests of one client at one instant.
  abbrev pub ask :
      ℕ → ℕ → Bytes → RateLimiter float → RateLimiter float × List (Option RateLimitResult)
  ask zero now ip limiter = (limiter, [])
  ask (suc k) now ip limiter =
      let (after, result) = check float now now ip limiter in
      let (last, results) = ask k now ip after in (last, result ∷ results)

  -- The wait that a client without a token is told, if it can be made.
  abbrev pub wait : float.F64 → Option ℕ
  wait rate = float.from_secs_f64 (float.div (float.sub (float.of_u32 1) (float.of_u32 0)) rate)

  abbrev with_left : ℕ → ℕ → RateLimitConfig float → TokenBucket float
  with_left now left config = record {
    tokens = float.of_u32 left;
    last_refill = now;
    burst_size = config.burst_size;
    refill_rate = config.requests_per_second;
  }

  refill-with_left :
      (now left : ℕ) (config : RateLimitConfig float)
      → config.burst_size < 2 ^ 32
      → left ≤ config.burst_size
      → float.mul (float.of_u32 0) config.requests_per_second ≡ float.of_u32 0
      → refill float now (with_left now left config) ≡ with_left now left config
  unfolding refill
  refill-with_left now left config size few still =
      let none_gone : now - now ≡ 0 = omega arith in
      let capped : float.minimum (float.of_u32 left) (float.of_u32 config.burst_size)
          ≡ float.of_u32 left =
        float.minimum-of_u32 left config.burst_size (omega arith) size
        ∙ rw (le→leb left config.burst_size few) refl in
      rw (none_gone, float.as_secs_f64_zero, still, float.add_zero left (omega arith), capped) refl

  -- `try_consume` behind the refill.
  abbrev take_token : TokenBucket float → TokenBucket float × Bool
  take_token full =
      if float.ge full.tokens (float.of_u32 1)
      then (record full { tokens = float.sub full.tokens (float.of_u32 1) }, true)
      else (full, false)

  consume_last :
      (now : ℕ) (config : RateLimitConfig float)
      → config.burst_size < 2 ^ 32
      → float.mul (float.of_u32 0) config.requests_per_second ≡ float.of_u32 0
      → try_consume float now (with_left now 0 config) ≡ (with_left now 0 config, false)
  unfolding try_consume
  consume_last now config size still =
      ap take_token (refill-with_left now 0 config size (omega arith) still)
      ∙ rw (float.ge-of_u32 0 1 (omega arith) (omega arith)) refl

  consume_one :
      (now left : ℕ) (config : RateLimitConfig float)
      → config.burst_size < 2 ^ 32
      → suc left ≤ config.burst_size
      → float.mul (float.of_u32 0) config.requests_per_second ≡ float.of_u32 0
      → try_consume float now (with_left now (suc left) config) ≡ (with_left now left config, true)
  unfolding try_consume
  consume_one now left config size few still =
      let next : suc left ≡ left + 1 = omega arith in
      ap take_token (refill-with_left now (suc left) config size few still)
      ∙ rw
          (
            next,
            float.ge-of_u32 (left + 1) 1 (omega arith) (omega arith),
            le→leb 1 (left + 1) (omega arith),
            float.sub_one left (omega arith),
          )
          refl

  -- One request with a bucket that is known.
  after_check :
      (now : ℕ) (ip : Bytes) (limiter : RateLimiter float) (b c : TokenBucket float)
      (consumed : Bool)
      → limiter.config.enabled ≡ true
      → limiter.poisoned ≡ false
      → bucket_of float now ip limiter ≡ b
      → try_consume float now b ≡ (c, consumed)
      → check float now now ip limiter ≡ finish float ip c consumed limiter
  after_check now ip limiter b c consumed on alive is_b eats =
      check_live float now now ip limiter on alive
      ∙ ap
          (λ d.
            let (bucket, taken) = try_consume float now d in finish float ip bucket taken limiter)
          is_b
      ∙ ap (λ r. let (bucket, taken) = r in finish float ip bucket taken limiter) eats

  -- Behind a panic every request panics.
  ask_dead :
      (k now : ℕ) (ip : Bytes) (limiter : RateLimiter float)
      → limiter.config.enabled ≡ true
      → limiter.poisoned ≡ true
      → (ask k now ip limiter).1 ≡ answers none limiter.config.burst_size 0 k
  ask_dead zero now ip limiter on dead = refl
  ask_dead (suc k) now ip limiter on dead =
      rw (check_dead float now now ip limiter on dead)
        (ap (λ rs. none ∷ rs) (ask_dead k now ip limiter on dead))

  abbrev having : Bytes → TokenBucket float → RateLimiter float → RateLimiter float
  having ip c limiter = record limiter { buckets = insert ip c limiter.buckets }

  bucket_there :
      (now : ℕ) (ip : Bytes) (c : TokenBucket float) (limiter : RateLimiter float)
      → bucket_of float now ip (having ip c limiter) ≡ c
  unfolding bucket_of
  bucket_there now ip c limiter = rw (lookup-insert_self ip c limiter.buckets, bucket_of) refl

  no_token :
      (now : ℕ) (config : RateLimitConfig float)
      → retry_after float (with_left now 0 config) ≡ wait config.requests_per_second
  unfolding retry_after
  no_token now config = rw (float.ge-of_u32 0 1 (omega arith) (omega arith)) refl

  -- A request without a token.
  refused :
      (now : ℕ) (ip : Bytes) (limiter : RateLimiter float)
      → limiter.config.enabled ≡ true
      → limiter.poisoned ≡ false
      → limiter.config.burst_size < 2 ^ 32
      → float.mul (float.of_u32 0) limiter.config.requests_per_second ≡ float.of_u32 0
      → bucket_of float now ip limiter ≡ with_left now 0 limiter.config
      → let after = having ip (with_left now 0 limiter.config) limiter in
        check float now now ip limiter ≡ (elim (wait limiter.config.requests_per_second) [
          | some w ↦ (after, some (limited w limiter.config.burst_size))
          | none ↦ (record after { poisoned = true }, none)
        ])
  unfolding finish
  refused now ip limiter on alive size still is_b =
      after_check now ip limiter _ _ false on alive is_b
        (consume_last now limiter.config size still)
      ∙ rw (no_token now limiter.config) refl

  -- And one with a token.
  let_through :
      (left now : ℕ) (ip : Bytes) (limiter : RateLimiter float)
      → limiter.config.enabled ≡ true
      → limiter.poisoned ≡ false
      → limiter.config.burst_size < 2 ^ 32
      → float.mul (float.of_u32 0) limiter.config.requests_per_second ≡ float.of_u32 0
      → suc left ≤ limiter.config.burst_size
      → bucket_of float now ip limiter ≡ with_left now (suc left) limiter.config
      → check float now now ip limiter ≡ (
        having ip (with_left now left limiter.config) limiter,
        some (allowed left limiter.config.burst_size),
      )
  unfolding finish remaining
  let_through left now ip limiter on alive size still few is_b =
      after_check now ip limiter _ _ true on alive is_b
        (consume_one now left limiter.config size few still)
      ∙ rw (float.as_u32-of_u32 left (omega arith)) refl

  ask_lem :
      (k left now : ℕ) (ip : Bytes) (limiter : RateLimiter float)
      → limiter.config.enabled ≡ true
      → limiter.poisoned ≡ false
      → limiter.config.burst_size < 2 ^ 32
      → float.mul (float.of_u32 0) limiter.config.requests_per_second ≡ float.of_u32 0
      → left ≤ limiter.config.burst_size
      → bucket_of float now ip limiter ≡ with_left now left limiter.config
      → (ask k now ip limiter).1
        ≡ answers (wait limiter.config.requests_per_second) limiter.config.burst_size left k
  ask_lem zero left now ip limiter on alive size still few is_b = refl
  ask_lem (suc k) zero now ip limiter on alive size still few is_b =
      let after = having ip (with_left now 0 limiter.config) limiter in
      let one = refused now ip limiter on alive size still is_b in
      elim (Option-cases (wait limiter.config.requests_per_second)) [
        | inl panics ↦
            rw (rw panics at one, panics)
              (ap (λ rs. none ∷ rs)
                (ask_dead k now ip (record after { poisoned = true }) on refl
                  ∙ ap (λ v. answers v limiter.config.burst_size 0 k) (sym panics)))
        | inr (w, told) ↦
            rw (rw told at one, told)
              (ap (λ rs. some (limited w limiter.config.burst_size) ∷ rs)
                (ask_lem k 0 now ip after on alive size still few
                  (bucket_there now ip (with_left now 0 limiter.config) limiter)))
      ]
  ask_lem (suc k) (suc left) now ip limiter on alive size still few is_b =
      let after = having ip (with_left now left limiter.config) limiter in
      rw (let_through left now ip limiter on alive size still few is_b) (
        ap (λ rs. some (allowed left limiter.config.burst_size) ∷ rs)
          (ask_lem k left now ip after on alive size still (omega arith)
            (bucket_there now ip (with_left now left limiter.config) limiter)))

  -- A client that the limiter does not know yet, asking any number of times at one instant: the first
  -- `burst_size` requests are let through, each told how many are left, and each one behind them is
  -- refused with the same wait, the time for a whole token at its rate, or all of them panic, where
  -- that time is none that `Duration::from_secs_f64` can make. The limiter is enabled and no call has
  -- panicked before, its burst fits 32 bits, and no time times its rate is no tokens.
  pub ask-answers :
      (k now : ℕ) (ip : Bytes) (limiter : RateLimiter float)
      → limiter.config.enabled ≡ true
      → limiter.poisoned ≡ false
      → limiter.config.burst_size < 2 ^ 32
      → float.mul (float.of_u32 0) limiter.config.requests_per_second ≡ float.of_u32 0
      → lookup ip limiter.buckets ≡ none
      → (ask k now ip limiter).1
        ≡ answers
            (wait limiter.config.requests_per_second)
            limiter.config.burst_size
            limiter.config.burst_size
            k
  unfolding bucket_of new_bucket
  ask-answers k now ip limiter on alive size still fresh =
      ask_lem k limiter.config.burst_size now ip limiter on alive size still (omega arith)
        (rw (fresh, bucket_of) refl)
