-- ===== src/RateLimit.antt =====
-- src/common/ratelimit.rs: the rate limiter, a token bucket for each client, and its middleware. `f64` is
-- an interface, an `Instant` and a `Duration` their nanoseconds; the clock is read by the caller and
-- handed in. The mutex is held for a whole call: a panic in one poisons it, and what locks it
-- afterwards panics. A call that panics has the result `none`.
pub mod Calls
pub mod Burst
pub mod Bounded
mod Tests
use minikv.Prelude.{
  leb, ◌+◌, ℕ, ◌-◌, ◌*◌, ◌/◌, ◌^◌, ◌≤◌, ◌<◌, ◌≡◌, Bool, true, false, not, Option, none, some, List,
  [], ltb, nat_eq, list_eq, length, if◌then◌else◌,
}
use minikv.Bytes.{Bytes}
use minikv.Text.{ascii, decimal}
use minikv.HashMap.{HashMap, lookup, insert, retain}

-- What the limiter does with an `f64`, and what it relies on: that a number of 32 bits is exact, and
-- that `min` is below its second argument where that is a number.
pub record Float : Type 1 where
  pub F64 : Type 0
  pub of_u32 : ℕ → F64
  pub as_u32 : F64 → ℕ
  pub add : F64 → F64 → F64
  pub sub : F64 → F64 → F64
  pub mul : F64 → F64 → F64
  pub div : F64 → F64 → F64
  pub minimum : F64 → F64 → F64
  pub ge : F64 → F64 → Bool
  -- `Duration::as_secs_f64` and `Duration::from_secs_f64`, which panics where the number is negative, not
  -- finite or too large.
  pub as_secs_f64 : ℕ → F64
  pub from_secs_f64 : F64 → Option ℕ
  pub as_secs_f64_zero : as_secs_f64 0 ≡ of_u32 0
  pub add_zero : (n : ℕ) → n < 2 ^ 32 → add (of_u32 n) (of_u32 0) ≡ of_u32 n
  pub sub_one : (n : ℕ) → n + 1 < 2 ^ 32 → sub (of_u32 (n + 1)) (of_u32 1) ≡ of_u32 n
  pub as_u32-of_u32 : (n : ℕ) → n < 2 ^ 32 → as_u32 (of_u32 n) ≡ n
  pub ge-of_u32 : (n m : ℕ) → n < 2 ^ 32 → m < 2 ^ 32 → ge (of_u32 n) (of_u32 m) ≡ leb m n
  pub minimum-of_u32 :
      (n m : ℕ)
      → n < 2 ^ 32
      → m < 2 ^ 32
      → minimum (of_u32 n) (of_u32 m) ≡ (if leb n m then of_u32 n else of_u32 m)
  pub ge-minimum : (x : F64) (n : ℕ) → n < 2 ^ 32 → ge (of_u32 n) (minimum x (of_u32 n)) ≡ true
  pub ge-sub_one :
      (x : F64) (n : ℕ)
      → n < 2 ^ 32
      → ge (of_u32 n) x ≡ true
      → ge (of_u32 n) (sub x (of_u32 1)) ≡ true

module _ (float : Float) where
  pub record RateLimitConfig : Type 0 where
    pub burst_size : ℕ
    pub requests_per_second : float.F64
    pub window_duration : ℕ
    pub enabled : Bool

  pub record TokenBucket : Type 0 where
    pub tokens : float.F64
    pub last_refill : ℕ
    pub burst_size : ℕ
    pub refill_rate : float.F64

  -- The buckets stand in the mutex.
  pub record RateLimiter : Type 0 where
    pub buckets : HashMap Bytes TokenBucket
    pub poisoned : Bool
    pub config : RateLimitConfig

  pub record RateLimitStats : Type 0 where
    pub tracked_ips : ℕ
    pub config : RateLimitConfig

  unfoldable pub new_bucket : ℕ → ℕ → float.F64 → TokenBucket
  new_bucket now burst_size refill_rate = record {
    tokens = float.of_u32 burst_size;
    last_refill = now;
    burst_size = burst_size;
    refill_rate = refill_rate;
  }

  -- An earlier instant is no time away.
  unfoldable pub refill : ℕ → TokenBucket → TokenBucket
  refill now b =
      let elapsed = float.as_secs_f64 (now - b.last_refill) in
      record b {
        tokens =
            float.minimum (float.add b.tokens (float.mul elapsed b.refill_rate))
              (float.of_u32 b.burst_size);
        last_refill = now;
      }

  unfoldable pub try_consume : ℕ → TokenBucket → TokenBucket × Bool
  unfolding refill
  try_consume now b =
      let full = refill now b in
      if float.ge full.tokens (float.of_u32 1)
      then (record full { tokens = float.sub full.tokens (float.of_u32 1) }, true)
      else (full, false)

  unfoldable pub remaining : TokenBucket → ℕ
  remaining b = float.as_u32 b.tokens

  unfoldable pub retry_after : TokenBucket → Option ℕ
  retry_after b =
      if float.ge b.tokens (float.of_u32 1)
      then some 0
      else (let needed = float.sub (float.of_u32 1) b.tokens in
          float.from_secs_f64 (float.div needed b.refill_rate))

  unfoldable pub new : RateLimitConfig → RateLimiter
  new config = record { buckets = []; poisoned = false; config = config }

-- `Allowed { remaining, limit }` and `Limited { retry_after, limit }`.
pub data RateLimitResult : Type 0 where
  allowed limited : ℕ → ℕ → RateLimitResult

-- An HTTP response, as far as the middleware makes one.
pub record Response : Type 0 where
  pub status : ℕ
  pub headers : HashMap Bytes Bytes
  pub body : Bytes

-- What becomes of a request: the headers of a response that was let through, or the refusal.
unfoldable pub respond : RateLimitResult → Response → Response
respond (allowed remaining limit) response = record response {
  headers =
      insert (ascii "X-RateLimit-Remaining") (decimal remaining)
        (insert (ascii "X-RateLimit-Limit") (decimal limit) response.headers);
}
respond (limited retry_after limit) response = record {
  status = 429;
  headers = insert (ascii "Retry-After") (decimal (retry_after / 10 ^ 9)) (
      insert (ascii "X-RateLimit-Remaining") (ascii "0")
        (insert (ascii "X-RateLimit-Limit") (decimal limit) []));
  body = ascii "Too Many Requests";
}

module _ (float : Float) where
  -- The bucket of the client, made now if there is none.
  unfoldable pub bucket_of : ℕ → Bytes → RateLimiter float → TokenBucket float
  unfolding new_bucket
  bucket_of now ip limiter = elim (lookup ip limiter.buckets) [
    | some b ↦ b
    | none ↦ new_bucket float now limiter.config.burst_size limiter.config.requests_per_second
  ]

  -- The limiter and the result of a call that has taken a token or not.
  unfoldable pub finish :
      Bytes
      → TokenBucket float
      → Bool
      → RateLimiter float
      → RateLimiter float × Option RateLimitResult
  unfolding remaining retry_after
  finish ip bucket consumed limiter =
      let limit = limiter.config.burst_size in
      let after : RateLimiter float = record limiter {
        buckets = insert ip bucket limiter.buckets;
      } in
      if consumed
      then (after, some (allowed (remaining float bucket) limit))
      else (elim (retry_after float bucket) [
        | some wait ↦ (after, some (limited wait limit))
        | none ↦ (record after { poisoned = true }, none)
      ])

  -- `made` is when a new bucket is made, `now` when it is refilled.
  unfoldable pub check :
      ℕ → ℕ → Bytes → RateLimiter float → RateLimiter float × Option RateLimitResult
  unfolding bucket_of try_consume finish
  check made now ip limiter =
      let limit = limiter.config.burst_size in
      if not limiter.config.enabled
      then (limiter, some (allowed limit limit))
      else if limiter.poisoned
      then (limiter, none)
      else (let (bucket, consumed) = try_consume float now (bucket_of made ip limiter) in
          finish ip bucket consumed limiter)

  unfoldable pub cleanup : ℕ → RateLimiter float → RateLimiter float × Option (Unit {0})
  cleanup now limiter = if limiter.poisoned then (limiter, none) else (
    record limiter {
      buckets =
          retain (λ ip bucket. ltb (now - bucket.last_refill) limiter.config.window_duration)
            limiter.buckets;
    },
    some tt,
  )

  unfoldable pub stats : RateLimiter float → Option (RateLimitStats float)
  stats limiter =
      if limiter.poisoned
      then none
      else some (record { tracked_ips = length limiter.buckets; config = limiter.config })

  -- `next` is run only for a request that is let through.
  unfoldable pub rate_limit_middleware :
      ℕ → ℕ → Bytes → Response → RateLimiter float → RateLimiter float × Option Response
  unfolding check respond
  rate_limit_middleware made now ip next limiter =
      let (after, result) = check made now ip limiter in
      (after, elim result [ none ↦ none | some r ↦ some (respond r next) ])
