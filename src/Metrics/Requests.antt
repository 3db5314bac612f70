-- ===== src/Metrics/Requests.antt =====
-- What the registry of src/common/metrics.rs counts.
use minikv.Prelude.{
  subst, sym, eq_refl, ℕ, ◌+◌, ◌^◌, ◌<◌, ◌≤◌, ◌≡◌, refl, ap, ◌∙◌, arith, Bool, not, ◌&&◌,
  Bool-cases, inl, inr, none, some, List, [], ◌∷◌, length, nat_eq, list_eq, list_beq_iff, ◌==◌,
  if◌then◌else◌,
}
use minikv.Bytes.{Bytes}
use minikv.HashMap.{lookup}
use minikv.HashMap.Laws.{lookup-insert}
use minikv.Metrics.{
  Float, EndpointMetrics, MetricsRegistry, new, new_endpoint, endpoint, recorded, record_request,
  inc,
}

pub record Request : Type 0 where
  pub path : Bytes
  pub duration : ℕ
  pub success : Bool

-- Requests of a path, those of them that fail, and all that fail.
abbrev pub count : Bytes → List Request → ℕ
count path [] = 0
count path (r ∷ rs) = (if r.path == path then 1 else 0) + count path rs

abbrev pub count_errors : Bytes → List Request → ℕ
count_errors path [] = 0
count_errors path (r ∷ rs) =
    (if (r.path == path) && not r.success then 1 else 0) + count_errors path rs

abbrev pub all_errors : List Request → ℕ
all_errors [] = 0
all_errors (r ∷ rs) = (if r.success then 0 else 1) + all_errors rs

count-length :
    (path : Bytes) (rs : List Request)
    → (count path rs ≤ length rs)
      × (count_errors path rs ≤ count path rs)
      × (all_errors rs ≤ length rs)
count-length path [] = ground arith
count-length path (r ∷ rs) = ground (arith, count-length path rs)

module _ (float : Float) where
  -- Requests that were recorded one after the other, the last one first.
  abbrev pub record_all : List Request → MetricsRegistry float
  record_all [] = new float
  record_all (r ∷ rs) = record_request float r.path r.duration r.success (record_all rs)

  abbrev pub Counts : Bytes → List Request → EndpointMetrics float → Type 0
  Counts path rs e =
      (e.requests_total ≡ count path rs)
      × (e.requests_error ≡ count_errors path rs)
      × (e.requests_success + e.requests_error ≡ e.requests_total)

  endpoint-record_request :
      (path : Bytes) (r : Request) (m : MetricsRegistry float)
      → endpoint float path (record_request float r.path r.duration r.success m) ≡ (
          if r.path == path
          then recorded float r.duration r.success (endpoint float r.path m)
          else endpoint float path m)
  unfolding endpoint record_request
  endpoint-record_request path r m =
      let v = recorded float r.duration r.success (endpoint float r.path m) in
      ap (λ o. elim o [ some e ↦ e | none ↦ new_endpoint float ])
        (lookup-insert r.path path v m.endpoints)
      ∙ (elim (Bool-cases (r.path == path)) [ inl same ↦ rw same refl | inr other ↦ rw other refl ])

  recorded-Counts :
      (r : Request) (rs : List Request) (e : EndpointMetrics float)
      → length rs + 1 < 2 ^ 64
      → Counts r.path rs e
      → Counts r.path (r ∷ rs) (recorded float r.duration r.success e)
  unfolding recorded inc
  recorded-Counts r rs e fits h = ground (arith, h, count-length r.path rs, eq_refl r.path)

  endpoint-Counts :
      (path : Bytes) (r : Request) (rs : List Request) (e here : EndpointMetrics float)
      → length rs + 1 < 2 ^ 64
      → Counts r.path rs e
      → Counts path rs here
      → Counts path
          (r ∷ rs)
          (if r.path == path then recorded float r.duration r.success e else here)
  endpoint-Counts path r rs e here fits of_path of_here = elim (Bool-cases (r.path == path)) [
    | inl same ↦
        let counted : Counts path (r ∷ rs) (recorded float r.duration r.success e) =
          subst (λ p. Counts p (r ∷ rs) (recorded float r.duration r.success e))
            ((list_beq_iff r.path path).0 same) (recorded-Counts r rs e fits of_path) in
        subst
          (λ b. Counts path (r ∷ rs) (if b then recorded float r.duration r.success e else here))
          (sym same) counted
    | inr other ↦ ground (arith, other, of_here)
  ]

  -- After fewer than 2^64 requests the metrics of a path have the number of its requests and of those
  -- that failed, its successes and errors together are its requests, and the registry has the number of
  -- all requests and of all that failed.
  pub record_all-Counts :
      (path : Bytes) (rs : List Request)
      → length rs < 2 ^ 64
      → Counts path rs (endpoint float path (record_all rs))
        × ((record_all rs).total_requests ≡ length rs)
        × ((record_all rs).total_errors ≡ all_errors rs)
  unfolding new lookup record_request inc endpoint new_endpoint
  record_all-Counts path [] h = ((refl, refl, refl), refl, refl)
  record_all-Counts path (r ∷ rs) h =
      let (of_path, all, errors) = record_all-Counts r.path rs (omega arith) in
      let (of_here, _, _) = record_all-Counts path rs (omega arith) in
      let m = record_all rs in
      (
        subst (Counts path (r ∷ rs)) (sym (endpoint-record_request path r m)) (
            endpoint-Counts path r rs (endpoint float r.path m) (endpoint float path m)
              (omega arith) of_path of_here),
        omega (arith, all),
        ground (arith, errors, all, count-length path rs),
      )
