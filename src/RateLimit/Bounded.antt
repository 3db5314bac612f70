-- ===== src/RateLimit/Bounded.antt =====
-- src/common/ratelimit.rs: no bucket holds more than the burst, whatever is asked and whenever.
use minikv.Prelude.{
  Bool, subst, ℕ, ◌^◌, ◌<◌, ◌≡◌, refl, ◌∙◌, true, false, Bool-cases, Option-cases, inl, inr, List,
  [], ◌∷◌, nat_eq, list_eq,
}
use minikv.Bytes.{Bytes}
use minikv.HashMap.{lookup, insert}
use minikv.HashMap.Values.{AllEntries, insert-AllEntries, retain-AllEntries, lookup-AllEntries}
use minikv.RateLimit.Calls.{check_off, check_dead, check_live, cleanup_dead}
use minikv.RateLimit.{
  Float, RateLimitConfig, TokenBucket, RateLimiter, new, new_bucket, refill, try_consume, bucket_of,
  retry_after, finish, check, cleanup,
}

-- What a limiter is asked to do, and when: a request, with the time at which a new bucket is made, and the
-- cleaning of old buckets.
pub data Action : Type 0 where
  request : ℕ → ℕ → Bytes → Action
  clean : ℕ → Action

module _ (float : Float) where
  unfoldable pub run : List Action → RateLimiter float → RateLimiter float
  run [] limiter = limiter
  run (request made now ip ∷ acts) limiter = run acts (check float made now ip limiter).0
  run (clean now ∷ acts) limiter = run acts (cleanup float now limiter).0

  -- A bucket with no more tokens than the burst of the configuration.
  abbrev pub IsWithin : ℕ → Bytes → TokenBucket float → Type 0
  IsWithin burst ip b = (b.burst_size ≡ burst) × (float.ge (float.of_u32 burst) b.tokens ≡ true)

  try_consume-IsWithin :
      (burst now : ℕ) (ip : Bytes) (b : TokenBucket float)
      → burst < 2 ^ 32
      → b.burst_size ≡ burst
      → IsWithin burst ip (try_consume float now b).0
  unfolding try_consume refill
  try_consume-IsWithin burst now ip b size same =
      let full = refill float now b in
      let capped : float.ge (float.of_u32 burst) full.tokens ≡ true =
        rw same (float.ge-minimum _ burst size) in
      elim (Bool-cases (float.ge full.tokens (float.of_u32 1))) [
        | inl some_left ↦ rw some_left (same, float.ge-sub_one full.tokens burst size capped)
        | inr none_left ↦ rw none_left (same, capped)
      ]

  abbrev AllWithin : RateLimiter float → Type 0
  AllWithin limiter = AllEntries (IsWithin limiter.config.burst_size) limiter.buckets

  bucket_of-burst_size :
      (made : ℕ) (ip : Bytes) (limiter : RateLimiter float)
      → AllWithin limiter
      → (bucket_of float made ip limiter).burst_size ≡ limiter.config.burst_size
  unfolding bucket_of new_bucket
  bucket_of-burst_size made ip limiter h = elim (Option-cases (lookup ip limiter.buckets)) [
    | inl fresh ↦ rw (fresh, bucket_of) refl
    | inr (b, known) ↦
        rw (known, bucket_of)
          (lookup-AllEntries (IsWithin limiter.config.burst_size) ip b limiter.buckets h known).0
  ]

  finish-AllWithin :
      (ip : Bytes) (bucket : TokenBucket float) (consumed : Bool) (limiter : RateLimiter float)
      → AllEntries (IsWithin limiter.config.burst_size) (insert ip bucket limiter.buckets)
      → ((finish float ip bucket consumed limiter).0.config ≡ limiter.config)
        × AllWithin (finish float ip bucket consumed limiter).0
  unfolding finish
  finish-AllWithin ip bucket true limiter h = (refl, h)
  finish-AllWithin ip bucket false limiter h = elim (Option-cases (retry_after float bucket)) [
    | inl panics ↦ rw (panics, finish) (refl, h)
    | inr (wait, told) ↦ rw (told, finish) (refl, h)
  ]

  check-AllWithin :
      (made now : ℕ) (ip : Bytes) (limiter : RateLimiter float)
      → limiter.config.burst_size < 2 ^ 32
      → AllWithin limiter
      → ((check float made now ip limiter).0.config ≡ limiter.config)
        × AllWithin (check float made now ip limiter).0
  unfolding check
  check-AllWithin made now ip limiter size h = elim (Bool-cases limiter.config.enabled) [
    | inr off ↦ rw (check_off float made now ip limiter off) (refl, h)
    | inl on ↦ elim (Bool-cases limiter.poisoned) [
      | inl dead ↦ rw (check_dead float made now ip limiter on dead) (refl, h)
      | inr alive ↦
          let (bucket, consumed) = try_consume float now (bucket_of float made ip limiter) in
          rw (check_live float made now ip limiter on alive) (
            finish-AllWithin ip bucket consumed limiter (
              insert-AllEntries (IsWithin limiter.config.burst_size) ip _ limiter.buckets
                (try_consume-IsWithin limiter.config.burst_size now ip _ size
                  (bucket_of-burst_size made ip limiter h))
                h))
    ]
  ]

  cleanup-AllWithin :
      (now : ℕ) (limiter : RateLimiter float)
      → AllWithin limiter
      → ((cleanup float now limiter).0.config ≡ limiter.config)
        × AllWithin (cleanup float now limiter).0
  unfolding cleanup
  cleanup-AllWithin now limiter h = elim (Bool-cases limiter.poisoned) [
    | inl dead ↦ rw (cleanup_dead float now limiter dead) (refl, h)
    | inr alive ↦
        simp (alive)
          (refl, retain-AllEntries (IsWithin limiter.config.burst_size) _ limiter.buckets h)
  ]

  run-AllWithin :
      (acts : List Action) (limiter : RateLimiter float)
      → limiter.config.burst_size < 2 ^ 32
      → AllWithin limiter
      → ((run acts limiter).config ≡ limiter.config) × AllWithin (run acts limiter)
  unfolding run
  run-AllWithin [] limiter size h = (refl, h)
  run-AllWithin (request made now ip ∷ acts) limiter size h =
      let next = (check float made now ip limiter).0 in
      let (same, all) = check-AllWithin made now ip limiter size h in
      let (rest_same, rest_all) = run-AllWithin acts next (rw same size) all in
      (rest_same ∙ same, rest_all)
  run-AllWithin (clean now ∷ acts) limiter size h =
      let next = (cleanup float now limiter).0 in
      let (same, all) = cleanup-AllWithin now limiter h in
      let (rest_same, rest_all) = run-AllWithin acts next (rw same size) all in
      (rest_same ∙ same, rest_all)

  -- In a limiter that starts with no client, after any requests of any clients and any cleanings, at any
  -- times, also such that run backwards, every bucket holds at most as many tokens as the burst, which
  -- fits 32 bits, and the configuration is unchanged.
  pub run-new :
      (acts : List Action) (config : RateLimitConfig float)
      → config.burst_size < 2 ^ 32
      → ((run acts (new float config)).config ≡ config)
        × AllEntries (IsWithin config.burst_size) (run acts (new float config)).buckets
  unfolding new
  run-new acts config size =
      let (same, all) = run-AllWithin acts (new float config) size tt in
      (
        same,
        subst (λ c. AllEntries (IsWithin c.burst_size) (run acts (new float config)).buckets) same
            all,
      )
