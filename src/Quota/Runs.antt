-- ===== src/Quota/Runs.antt =====
-- src/common/quota.rs: what holds over any sequence of requests and records of a manager.
use minikv.Prelude.{
  ℕ, ◌^◌, ◌≤◌, ◌<◌, ◌≡◌, ◌≢◌, refl, sym, ap, ◌∙◌, ◌==◌, Bool-cases, Option-cases, inl, inr, arith,
  String, List, [], ◌∷◌, length, nat_eq, string_eq,
}
use minikv.HashMap.{lookup, insert}
use minikv.HashMap.Laws.{lookup-insert}
use minikv.Quota.{
  TenantUsage, QuotaManager, quota_of, get_usage, check_rate, record_request,
  check_and_record_request, record_storage_add, record_storage_remove, add_usage, remove_usage,
}
use minikv.Quota.Limits.{usage_of, check_and_record_request-within_rate}

-- What is asked of a manager, for any tenant: a request at a time, and the records of storage that is added
-- and removed.
pub data Event : Type 0 where
  request : ℕ → String → Event
  added removed : String → ℕ → Event

abbrev pub step : Event → QuotaManager → QuotaManager
step (request now tenant_id) m = (check_and_record_request now tenant_id m).0
step (added tenant_id bytes) m = record_storage_add tenant_id bytes m
step (removed tenant_id bytes) m = record_storage_remove tenant_id bytes m

abbrev pub run : List Event → QuotaManager → QuotaManager
run [] m = m
run (e ∷ es) m = run es (step e m)

step-quota_of :
    (e : Event) (tenant_id : String) (m : QuotaManager)
    → quota_of tenant_id (step e m) ≡ quota_of tenant_id m
unfolding check_and_record_request record_storage_add record_storage_remove
step-quota_of (request now other) tenant_id m = ground arith
step-quota_of (added other bytes) tenant_id m = refl
step-quota_of (removed other bytes) tenant_id m = ground arith

-- An entry for another tenant, or one with the same requests, leaves the requests on record.
entered :
    (other tenant_id : String) (u : TenantUsage) (m : QuotaManager)
    → (other ≡ tenant_id → u.request_times ≡ (get_usage other m).request_times)
    → (get_usage tenant_id (record m { usage = insert other u m.usage })).request_times
      ≡ (get_usage tenant_id m).request_times
entered other tenant_id u m same =
    ap (λ o. (usage_of o).request_times) (lookup-insert other tenant_id u m.usage)
    ∙ (elim (Bool-cases (other == tenant_id)) [
      | inl is_same ↦
          let e = (string_eq.eqb_iff other tenant_id).0 is_same in
          rw is_same (same e ∙ ap (λ t. (get_usage t m).request_times) e)
      | inr differs ↦ rw differs refl
    ])

other_request :
    (now : ℕ) (other tenant_id : String) (m : QuotaManager)
    → other ≢ tenant_id
    → (get_usage tenant_id (check_and_record_request now other m).0).request_times
      ≡ (get_usage tenant_id m).request_times
unfolding check_and_record_request
other_request now other tenant_id m differ =
    let checked = check_rate now (quota_of other m) (get_usage other m) in
    ground (
      arith,
      entered other tenant_id checked.0 m (λ e. absurd (differ e)),
      entered other tenant_id (record_request now checked.0) m (λ e. absurd (differ e)),
    )

recorded_add :
    (other tenant_id : String) (bytes : ℕ) (m : QuotaManager)
    → (get_usage tenant_id (record_storage_add other bytes m)).request_times
      ≡ (get_usage tenant_id m).request_times
unfolding record_storage_add add_usage
recorded_add other tenant_id bytes m =
    entered other tenant_id (add_usage bytes 1 (get_usage other m)) m (λ e. refl)

recorded_remove :
    (other tenant_id : String) (bytes : ℕ) (m : QuotaManager)
    → (get_usage tenant_id (record_storage_remove other bytes m)).request_times
      ≡ (get_usage tenant_id m).request_times
unfolding record_storage_remove remove_usage
recorded_remove other tenant_id bytes m = elim (Option-cases (lookup other m.usage)) [
  | inl fresh ↦ rw (fresh, record_storage_remove) refl
  | inr (u, known) ↦
      rw (known, record_storage_remove)
        (entered other tenant_id (remove_usage bytes 1 u) m (λ e. sym (rw (known, get_usage) refl)))
]

-- The limit of a tenant, for whoever has one of 32 bits.
abbrev pub IsWithinRate : String → QuotaManager → Type 0
IsWithinRate tenant_id m =
    length (get_usage tenant_id m).request_times ≤ (quota_of tenant_id m).rate_limit

step-IsWithinRate :
    (e : Event) (tenant_id : String) (m : QuotaManager)
    → (quota_of tenant_id m).rate_limit ≢ 0
    → (quota_of tenant_id m).rate_limit < 2 ^ 32
    → IsWithinRate tenant_id m
    → IsWithinRate tenant_id (step e m)
step-IsWithinRate (request now other) tenant_id m some_limit fits32 h =
    rw (step-quota_of (request now other) tenant_id m) (elim (Bool-cases (other == tenant_id)) [
      | inl is_same ↦
          rw ((string_eq.eqb_iff other tenant_id).0 is_same)
            (check_and_record_request-within_rate now tenant_id m some_limit fits32 h)
      | inr differs ↦
          rw
            (other_request now other tenant_id m
              (λ e. ground (arith, string_eq.eqb_iff other tenant_id)))
            h
    ])
step-IsWithinRate (added other bytes) tenant_id m some_limit fits32 h =
    rw (step-quota_of (added other bytes) tenant_id m, recorded_add other tenant_id bytes m) h
step-IsWithinRate (removed other bytes) tenant_id m some_limit fits32 h =
    rw (step-quota_of (removed other bytes) tenant_id m, recorded_remove other tenant_id bytes m) h

run-IsWithinRate :
    (es : List Event) (tenant_id : String) (m : QuotaManager)
    → (quota_of tenant_id m).rate_limit ≢ 0
    → (quota_of tenant_id m).rate_limit < 2 ^ 32
    → IsWithinRate tenant_id m
    → IsWithinRate tenant_id (run es m)
run-IsWithinRate [] tenant_id m some_limit fits32 h = h
run-IsWithinRate (e ∷ es) tenant_id m some_limit fits32 h =
    let same = step-quota_of e tenant_id m in
    run-IsWithinRate es tenant_id (step e m) (rw same some_limit) (rw same fits32)
      (step-IsWithinRate e tenant_id m some_limit fits32 h)

run-quota_of :
    (es : List Event) (tenant_id : String) (m : QuotaManager)
    → quota_of tenant_id (run es m) ≡ quota_of tenant_id m
run-quota_of [] tenant_id m = refl
run-quota_of (e ∷ es) tenant_id m =
    run-quota_of es tenant_id (step e m) ∙ step-quota_of e tenant_id m

-- From a manager without any usage, with any quotas, and through any requests and records of storage of
-- any tenants, at any times, a tenant that has a limit (of 32 bits) never has more requests on record than
-- that limit. The quotas are not changed in between.
pub run-within_rate :
    (es : List Event) (tenant_id : String) (m : QuotaManager)
    → m.usage ≡ []
    → (quota_of tenant_id m).rate_limit ≢ 0
    → (quota_of tenant_id m).rate_limit < 2 ^ 32
    → length (get_usage tenant_id (run es m)).request_times ≤ (quota_of tenant_id m).rate_limit
unfolding lookup
run-within_rate es tenant_id m fresh some_limit fits32 =
    rw (run-quota_of es tenant_id m) at
      (run-IsWithinRate es tenant_id m some_limit fits32 (rw fresh (omega arith)))
