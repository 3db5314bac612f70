-- ===== src/Quota.antt =====
-- src/common/quota.rs: the quotas of the tenants and what they have used. The clock, in milliseconds,
-- is read by the caller and handed in. A sum that is not saturating wraps, as in a release build.
pub mod Limits
pub mod Runs
mod Tests
use minikv.Prelude.{
  map, ℕ, ◌+◌, ◌-◌, ◌*◌, ◌%◌, ◌^◌, min, String, Bool, true, false, Option, none, some, List, [],
  ◌∷◌, ◌++◌, ltb, leb, ◌==◌, nat_eq, string_eq, length, if◌then◌else◌,
}
use minikv.HashMap.{HashMap, lookup, insert, remove}

abbrev pub default_rate_window : ℕ
default_rate_window = 1000

pub record TenantQuota : Type 0 where
  pub tenant_id : String
  pub storage_limit : ℕ
  pub object_limit : ℕ
  pub rate_limit : ℕ
  pub enabled : Bool
  pub created_at : Option ℕ

unfoldable pub with_limits : ℕ → String → ℕ → ℕ → ℕ → TenantQuota
with_limits now tenant_id storage_limit object_limit rate_limit = record {
  tenant_id = tenant_id;
  storage_limit = storage_limit;
  object_limit = object_limit;
  rate_limit = rate_limit;
  enabled = true;
  created_at = some now;
}

-- `TenantQuota::new`: 10 GB, a million objects, 1000 requests.
unfoldable pub new_quota : ℕ → String → TenantQuota
unfolding with_limits
new_quota now tenant_id = with_limits now tenant_id (10 * 1024 * 1024 * 1024) 1000000 1000

unfoldable pub unlimited : ℕ → String → TenantQuota
unfolding with_limits
unlimited now tenant_id = with_limits now tenant_id 0 0 0

pub record TenantUsage : Type 0 where
  pub storage_used : ℕ
  pub object_count : ℕ
  pub request_times : List ℕ

abbrev pub no_usage : TenantUsage
no_usage = record { storage_used = 0; object_count = 0; request_times = [] }

abbrev pub saturating_add : ℕ → ℕ → ℕ
saturating_add a b = min (a + b) (2 ^ 64 - 1)

-- `0` is no limit.
unfoldable pub fits : ℕ → ℕ → ℕ → Bool
fits limit used more = if limit == 0 then true else leb ((used + more) % 2 ^ 64) limit

-- The times after a moment.
unfoldable pub after : ℕ → List ℕ → List ℕ
after start [] = []
after start (t ∷ ts) = let rest = after start ts in if ltb start t then t ∷ rest else rest

-- The clock has run for longer than the window: an earlier subtraction would panic.
unfoldable pub check_rate : ℕ → TenantQuota → TenantUsage → TenantUsage × Bool
unfolding after
check_rate now quota usage =
    if quota.rate_limit == 0
    then (usage, true)
    else (let recent = after (now - default_rate_window) usage.request_times in
        (record usage { request_times = recent }, ltb (length recent % 2 ^ 32) quota.rate_limit))

unfoldable pub record_request : ℕ → TenantUsage → TenantUsage
record_request now usage = record usage { request_times = usage.request_times ++ now ∷ [] }

unfoldable pub add_usage : ℕ → ℕ → TenantUsage → TenantUsage
add_usage bytes count usage = record usage {
  storage_used = saturating_add usage.storage_used bytes;
  object_count = saturating_add usage.object_count count;
}

unfoldable pub remove_usage : ℕ → ℕ → TenantUsage → TenantUsage
remove_usage bytes count usage = record usage {
  storage_used = usage.storage_used - bytes;
  object_count = usage.object_count - count;
}

pub data QuotaCheckResult : Type 0 where
  allowed tenant_not_found : QuotaCheckResult
  storage_limit_exceeded : ℕ → ℕ → ℕ → QuotaCheckResult
  object_limit_exceeded : ℕ → ℕ → QuotaCheckResult
  rate_limit_exceeded : ℕ → ℕ → QuotaCheckResult
  tenant_disabled : QuotaCheckResult

unfoldable pub is_allowed : QuotaCheckResult → Bool
is_allowed allowed = true
is_allowed tenant_not_found = true
is_allowed (storage_limit_exceeded _ _ _) = false
is_allowed (object_limit_exceeded _ _) = false
is_allowed (rate_limit_exceeded _ _) = false
is_allowed tenant_disabled = false

pub record QuotaManager : Type 0 where
  pub quotas : HashMap String TenantQuota
  pub usage : HashMap String TenantUsage
  pub default_quota : TenantQuota

unfoldable pub new : ℕ → QuotaManager
unfolding new_quota
new now = record { quotas = []; usage = []; default_quota = new_quota now "__default__" }

abbrev pub set_default_quota : TenantQuota → QuotaManager → QuotaManager
set_default_quota quota m = record m { default_quota = quota }

abbrev pub get_quota : String → QuotaManager → Option TenantQuota
get_quota tenant_id m = lookup tenant_id m.quotas

abbrev pub list_quotas : QuotaManager → List TenantQuota
list_quotas m = map (λ entry. entry.1) m.quotas

abbrev pub quota_of : String → QuotaManager → TenantQuota
quota_of tenant_id m = elim (lookup tenant_id m.quotas) [ none ↦ m.default_quota | some q ↦ q ]

abbrev pub get_usage : String → QuotaManager → TenantUsage
get_usage tenant_id m = elim (lookup tenant_id m.usage) [ none ↦ no_usage | some u ↦ u ]

unfoldable pub set_quota : TenantQuota → QuotaManager → QuotaManager
set_quota quota m = record m { quotas = insert quota.tenant_id quota m.quotas }

unfoldable pub remove_quota : String → QuotaManager → QuotaManager × Option TenantQuota
remove_quota tenant_id m =
    (record m { quotas = remove tenant_id m.quotas }, lookup tenant_id m.quotas)

unfoldable pub check_storage : String → ℕ → QuotaManager → QuotaCheckResult
unfolding fits
check_storage tenant_id additional_bytes m =
    let quota = quota_of tenant_id m in
    let used = (get_usage tenant_id m).storage_used in
    if quota.enabled
    then (if fits quota.storage_limit used additional_bytes
        then allowed
        else storage_limit_exceeded quota.storage_limit used additional_bytes)
    else tenant_disabled

unfoldable pub check_objects : String → QuotaManager → QuotaCheckResult
unfolding fits
check_objects tenant_id m =
    let quota = quota_of tenant_id m in
    let count = (get_usage tenant_id m).object_count in
    if quota.enabled
    then (if fits quota.object_limit count 1
        then allowed
        else object_limit_exceeded quota.object_limit count)
    else tenant_disabled

unfoldable pub check_and_record_request :
    ℕ → String → QuotaManager → QuotaManager × QuotaCheckResult
unfolding check_rate record_request
check_and_record_request now tenant_id m =
    let quota = quota_of tenant_id m in
    let (checked, passes) = check_rate now quota (get_usage tenant_id m) in
    let store = λ (u : TenantUsage). record m { usage = insert tenant_id u m.usage } in
    if quota.enabled
    then (if passes
        then (store (record_request now checked), allowed)
        else (store checked, rate_limit_exceeded quota.rate_limit 1))
    else (m, tenant_disabled)

unfoldable pub record_storage_add : String → ℕ → QuotaManager → QuotaManager
unfolding add_usage
record_storage_add tenant_id bytes m = record m {
  usage = insert tenant_id (add_usage bytes 1 (get_usage tenant_id m)) m.usage;
}

-- A tenant without usage is not entered.
unfoldable pub record_storage_remove : String → ℕ → QuotaManager → QuotaManager
unfolding remove_usage
record_storage_remove tenant_id bytes m = elim (lookup tenant_id m.usage) [
  | none ↦ m
  | some u ↦ record m { usage = insert tenant_id (remove_usage bytes 1 u) m.usage }
]
