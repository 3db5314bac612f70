-- ===== src/Metrics.antt =====
-- src/common/metrics.rs: histograms, counters, gauges and the registry of the endpoints. `f64` is an
-- interface, a `Duration` its nanoseconds. Each atomic is a field, and a call runs without another one in
-- between. The start time, and what is printed of the metrics, are not modelled.
pub mod Buckets
pub mod Requests
mod Tests
use minikv.Prelude.{
  ℕ, zero, suc, ◌+◌, ◌-◌, ◌%◌, ◌^◌, ◌≡◌, Bool, true, Option, none, some, List, [], ◌∷◌, nat_eq,
  list_eq, length, if◌then◌else◌, replicate,
}
use minikv.Bytes.{Bytes}
use minikv.HashMap.{HashMap, lookup, insert}

-- What the metrics do with an `f64`, and that its order is transitive. A cast to `u64` saturates.
pub record Float : Type 1 where
  pub F64 : Type 0
  pub of_nat : ℕ → F64
  pub mul : F64 → F64 → F64
  pub le : F64 → F64 → Bool
  pub as_u64 : F64 → ℕ
  -- `Duration::as_secs_f64`
  pub as_secs_f64 : ℕ → F64
  pub le_trans : (x y z : F64) → le x y ≡ true → le y z ≡ true → le x z ≡ true

-- `fetch_add`, `fetch_sub` of an `AtomicU64`.
abbrev pub fetch_add : ℕ → ℕ → ℕ
fetch_add value n = (value + n) % 2 ^ 64

unfoldable pub inc : ℕ → ℕ
inc value = fetch_add value 1

unfoldable pub dec : ℕ → ℕ
dec value = (value + 2 ^ 64 - 1) % 2 ^ 64

-- One more in the bucket of an index; every histogram has one bucket more than boundaries.
unfoldable pub add_at : ℕ → List ℕ → List ℕ
add_at i [] = []
add_at zero (n ∷ buckets) = fetch_add n 1 ∷ buckets
add_at (suc i) (n ∷ buckets) = n ∷ add_at i buckets

module _ (float : Float) where
  pub record Histogram : Type 0 where
    pub buckets : List ℕ
    pub boundaries : List float.F64
    pub sum : ℕ
    pub count : ℕ

  unfoldable pub with_buckets : List float.F64 → Histogram
  with_buckets boundaries = record {
    buckets = replicate (length boundaries + 1) 0;
    boundaries = boundaries;
    sum = 0;
    count = 0;
  }

  abbrev latency_buckets : List float.F64
  latency_buckets =
      float.of_nat 1
      ∷ float.of_nat 5
      ∷ float.of_nat 10
      ∷ float.of_nat 25
      ∷ float.of_nat 50
      ∷ float.of_nat 100
      ∷ float.of_nat 250
      ∷ float.of_nat 500
      ∷ float.of_nat 1000
      ∷ float.of_nat 2500
      ∷ float.of_nat 5000
      ∷ []

  -- The first boundary that is no smaller, or the one behind the last.
  unfoldable pub bucket_idx : List float.F64 → float.F64 → ℕ
  bucket_idx [] value = 0
  bucket_idx (boundary ∷ boundaries) value =
      let rest = bucket_idx boundaries value in if float.le value boundary then 0 else suc rest

  unfoldable pub observe : float.F64 → Histogram → Histogram
  unfolding bucket_idx add_at
  observe value h = record h {
    buckets = add_at (bucket_idx h.boundaries value) h.buckets;
    sum = fetch_add h.sum (float.as_u64 (float.mul value (float.of_nat 1000)));
    count = fetch_add h.count 1;
  }

  -- The loop of `get_buckets`; `none` stands for the infinite boundary.
  unfoldable pub cumulate : ℕ → List float.F64 → List ℕ → List (Option float.F64 × ℕ)
  cumulate cumulative boundaries [] = []
  cumulate cumulative [] (n ∷ buckets) = (none, fetch_add cumulative n) ∷ []
  cumulate cumulative (boundary ∷ boundaries) (n ∷ buckets) =
      (some boundary, fetch_add cumulative n) ∷ cumulate (fetch_add cumulative n) boundaries buckets

  unfoldable pub get_buckets : Histogram → List (Option float.F64 × ℕ)
  unfolding cumulate
  get_buckets h = cumulate 0 h.boundaries h.buckets

  pub record EndpointMetrics : Type 0 where
    pub requests_total : ℕ
    pub requests_success : ℕ
    pub requests_error : ℕ
    pub latency : Histogram

  pub record MetricsRegistry : Type 0 where
    pub endpoints : HashMap Bytes EndpointMetrics
    pub total_requests : ℕ
    pub total_errors : ℕ
    pub total_bytes_read : ℕ
    pub total_bytes_written : ℕ
    pub active_connections : ℕ
    pub keys_with_ttl : ℕ
    pub compressed_blobs : ℕ
    pub rate_limited_requests : ℕ

  unfoldable pub new_endpoint : EndpointMetrics
  unfolding with_buckets
  new_endpoint = record {
    requests_total = 0;
    requests_success = 0;
    requests_error = 0;
    latency = with_buckets latency_buckets;
  }

  unfoldable pub new : MetricsRegistry
  new = record {
    endpoints = [];
    total_requests = 0;
    total_errors = 0;
    total_bytes_read = 0;
    total_bytes_written = 0;
    active_connections = 0;
    keys_with_ttl = 0;
    compressed_blobs = 0;
    rate_limited_requests = 0;
  }

  -- The metrics of a path, made if there are none.
  unfoldable pub endpoint : Bytes → MetricsRegistry → EndpointMetrics
  unfolding new_endpoint
  endpoint path m = elim (lookup path m.endpoints) [ some e ↦ e | none ↦ new_endpoint ]

  unfoldable pub recorded : ℕ → Bool → EndpointMetrics → EndpointMetrics
  unfolding observe inc
  recorded duration success e = record {
    requests_total = inc e.requests_total;
    requests_success = if success then inc e.requests_success else e.requests_success;
    requests_error = if success then e.requests_error else inc e.requests_error;
    latency = observe (float.mul (float.as_secs_f64 duration) (float.of_nat 1000)) e.latency;
  }

  unfoldable pub record_request : Bytes → ℕ → Bool → MetricsRegistry → MetricsRegistry
  unfolding endpoint recorded
  record_request path duration success m = record m {
    endpoints = insert path (recorded duration success (endpoint path m)) m.endpoints;
    total_requests = inc m.total_requests;
    total_errors = if success then m.total_errors else inc m.total_errors;
  }
