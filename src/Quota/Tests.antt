-- ===== src/Quota/Tests.antt =====
-- A tenant of src/common/quota.rs near its limits.
use minikv.Prelude.{
  List, some, ◌≡◌, ◌≤◌, ◌-◌, ◌^◌, refl, arith, true, none, [], ◌∷◌, length, string_eq,
}
use minikv.HashMap.{insert, lookup}
use minikv.Quota.{
  new, set_quota, unlimited, get_quota, list_quotas, quota_of, set_default_quota, TenantUsage,
  QuotaManager, allowed, get_usage, check_storage,
}
use minikv.Quota.Limits.{check_storage_wraps}
use minikv.Quota.Runs.{Event, request, added, removed, run, run-within_rate}

abbrev usage : TenantUsage
usage = record { storage_used = 90; object_count = 4; request_times = 4500 ∷ 5000 ∷ [] }

abbrev manager : QuotaManager
manager = record {
  quotas = [];
  usage = ("t", usage) ∷ [];
  default_quota = record {
    tenant_id = "__default__";
    storage_limit = 100;
    object_limit = 5;
    rate_limit = 2;
    enabled = true;
    created_at = none;
  };
}

check_storage_wraps_example : check_storage "t" (2 ^ 64 - 1) manager ≡ allowed
unfolding lookup
check_storage_wraps_example =
    check_storage_wraps "t" (2 ^ 64 - 1) manager refl (omega arith) (omega arith) (omega arith)

abbrev limited : QuotaManager
limited = set_quota (unlimited 7 "t") (new 7)

-- A tenant without a quota of its own has the default one.
default_and_own :
    (get_quota "u" limited ≡ none)
    × (get_quota "t" limited ≡ some (unlimited 7 "t"))
    × (list_quotas limited ≡ unlimited 7 "t" ∷ [])
    × (quota_of "u" (set_default_quota (unlimited 7 "d") limited) ≡ unlimited 7 "d")
unfolding lookup insert new set_quota unlimited
default_and_own = (refl, refl, refl, refl)

-- Two tenants, of which one asks more often than its limit allows.
abbrev events : List Event
events =
    request 10 "t"
    ∷ added "t" 50
    ∷ request 20 "u"
    ∷ request 30 "t"
    ∷ removed "t" 20
    ∷ request 40 "t"
    ∷ []

abbrev unused : QuotaManager
unused = record manager { usage = [] }

run-within_rate_example : length (get_usage "t" (run events unused)).request_times ≤ 2
unfolding lookup
run-within_rate_example =
    run-within_rate events "t" unused refl (λ e. omega (arith, e)) (omega arith)
