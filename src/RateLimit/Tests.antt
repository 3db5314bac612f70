-- ===== src/RateLimit/Tests.antt =====
-- The limiter of src/common/ratelimit.rs with numbers that are whole tokens.
use minikv.Prelude.{
  none, some, ℕ, ◌+◌, ◌-◌, ◌*◌, ◌/◌, ◌^◌, ◌≡◌, refl, arith, true, List, [], ◌∷◌, leb, if◌then◌else◌,
  nat_eq, list_eq,
}
use minikv.Text.{ascii}
use minikv.HashMap.{lookup}
use minikv.HashMap.Values.{AllEntries}
use minikv.RateLimit.{Float, RateLimitConfig, new, allowed, limited, respond}
use minikv.RateLimit.Burst.{ask, answers, wait, ask-answers}
use minikv.RateLimit.Bounded.{request, clean, Action, run, IsWithin, run-new}

abbrev smaller : ℕ → ℕ → ℕ
smaller a b = if leb a b then a else b

whole_minimum : (x n : ℕ) → leb (smaller x n) n ≡ true
whole_minimum x n = ground arith

whole_sub_one : (x n : ℕ) → leb x n ≡ true → leb (x - 1) n ≡ true
whole_sub_one x n h = ground arith

-- Whole tokens and whole seconds.
abbrev whole : Float
whole = record {
  F64 = ℕ;
  of_u32 = λ n. n;
  as_u32 = λ n. n;
  add = λ a b. a + b;
  sub = λ a b. a - b;
  mul = λ a b. a * b;
  div = λ a b. a / b;
  minimum = smaller;
  ge = λ a b. leb b a;
  as_secs_f64 = λ n. n / 10 ^ 9;
  from_secs_f64 = λ s. some (s * 10 ^ 9);
  as_secs_f64_zero = refl;
  add_zero = λ n h. omega arith;
  sub_one = λ n h. omega arith;
  as_u32-of_u32 = λ n h. refl;
  ge-of_u32 = λ n m h k. refl;
  minimum-of_u32 = λ n m h k. refl;
  ge-minimum = λ x n h. whole_minimum x n;
  ge-sub_one = λ x n h k. whole_sub_one x n k;
}

abbrev two_a_second : RateLimitConfig whole
two_a_second = record {
  burst_size = 3;
  requests_per_second = 2;
  window_duration = 60 * 10 ^ 9;
  enabled = true;
}

ask-answers_example :
    (ask whole 5 100 (ascii "10.0.0.1") (new whole two_a_second)).1 ≡ answers (wait whole 2) 3 3 5
unfolding new lookup
ask-answers_example =
    ask-answers whole 5 100 (ascii "10.0.0.1") (new whole two_a_second) refl refl (omega arith) refl
      refl

answers_test :
    answers (some 0) 3 3 5
    ≡ some (allowed 2 3)
      ∷ some (allowed 1 3)
      ∷ some (allowed 0 3)
      ∷ some (limited 0 3)
      ∷ some (limited 0 3)
      ∷ []
answers_test = refl

panics_test : answers none 1 1 3 ≡ some (allowed 0 1) ∷ none ∷ none ∷ []
panics_test = refl

refused_test :
    (respond (limited 0 3) (record { status = 200; headers = []; body = [] })).status ≡ 429
unfolding respond
refused_test = refl

abbrev actions : List Action
actions =
    request 5 7 (ascii "10.0.0.1")
    ∷ request 9 2 (ascii "10.0.0.2")
    ∷ clean 90
    ∷ request 95 95 (ascii "10.0.0.1")
    ∷ []

run-new_example :
    ((run whole actions (new whole two_a_second)).config ≡ two_a_second)
    × AllEntries (IsWithin whole 3) (run whole actions (new whole two_a_second)).buckets
run-new_example = run-new whole actions two_a_second (omega arith)
