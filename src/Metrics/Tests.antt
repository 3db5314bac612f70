-- ===== src/Metrics/Tests.antt =====
-- A histogram of src/common/metrics.rs with whole numbers.
use minikv.Prelude.{
  false, ℕ, ◌*◌, ◌/◌, ◌^◌, ◌≡◌, refl, arith, true, some, none, List, [], ◌∷◌, leb, length,
}
use minikv.Text.{ascii}
use minikv.Metrics.Requests.{Request}
use minikv.Metrics.{Float, with_buckets, get_buckets}
use minikv.Metrics.Buckets.{observe_all, report, IsRising, get_buckets-observe_all}

whole_trans : (x y z : ℕ) → leb x y ≡ true → leb y z ≡ true → leb x z ≡ true
whole_trans x y z h k = ground arith

abbrev whole : Float
whole = record {
  F64 = ℕ;
  of_nat = λ n. n;
  mul = λ a b. a * b;
  le = leb;
  as_u64 = λ n. n;
  as_secs_f64 = λ n. n / 10 ^ 9;
  le_trans = whole_trans;
}

abbrev boundaries : List ℕ
boundaries = 1 ∷ 5 ∷ 10 ∷ []

abbrev values : List ℕ
values = 7 ∷ 1 ∷ 90 ∷ 6 ∷ []

boundaries-IsRising : IsRising whole boundaries
boundaries-IsRising = ((refl, (refl, tt)), ((refl, tt), (tt, tt)))

get_buckets-observe_all_example :
    (get_buckets whole (observe_all whole values (with_buckets whole boundaries))
      ≡ report whole 0 boundaries values)
    × ((observe_all whole values (with_buckets whole boundaries)).count ≡ length values)
get_buckets-observe_all_example =
    get_buckets-observe_all whole boundaries values boundaries-IsRising (omega arith)

report_test :
    report whole 0 boundaries values ≡ (some 1, 1) ∷ (some 5, 1) ∷ (some 10, 3) ∷ (none, 4) ∷ []
report_test = refl

abbrev requests : List Request
requests =
    record { path = ascii "/a"; duration = 3; success = false }
    ∷ record { path = ascii "/b"; duration = 4; success = true }
    ∷ record { path = ascii "/a"; duration = 5; success = true }
    ∷ []
