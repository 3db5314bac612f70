-- ===== src/RateLimit/Calls.antt =====
-- src/common/ratelimit.rs: the branches of the calls that lock the mutex, and what a panic in one does to
-- the later ones.
use minikv.Prelude.{ℕ, ◌≡◌, true, false, some, none, nat_eq, list_eq}
use minikv.Bytes.{Bytes}
use minikv.RateLimit.{Float, RateLimiter, allowed, bucket_of, try_consume, finish, check, cleanup}

module _ (float : Float) where
  pub check_live :
      (made now : ℕ) (ip : Bytes) (limiter : RateLimiter float)
      → limiter.config.enabled ≡ true
      → limiter.poisoned ≡ false
      → let (bucket, consumed) = try_consume float now (bucket_of float made ip limiter) in
        check float made now ip limiter ≡ finish float ip bucket consumed limiter
  unfolding check
  check_live made now ip limiter on alive = simp (on, alive)

  pub check_dead :
      (made now : ℕ) (ip : Bytes) (limiter : RateLimiter float)
      → limiter.config.enabled ≡ true
      → limiter.poisoned ≡ true
      → check float made now ip limiter ≡ (limiter, none)
  unfolding check
  check_dead made now ip limiter on dead = simp (on, dead)

  pub check_off :
      (made now : ℕ) (ip : Bytes) (limiter : RateLimiter float)
      → limiter.config.enabled ≡ false
      → check float made now ip limiter
        ≡ (limiter, some (allowed limiter.config.burst_size limiter.config.burst_size))
  unfolding check
  check_off made now ip limiter off = simp (off)

  pub cleanup_dead :
      (now : ℕ) (limiter : RateLimiter float)
      → limiter.poisoned ≡ true
      → cleanup float now limiter ≡ (limiter, none)
  unfolding cleanup
  cleanup_dead now limiter dead = simp (dead)
