-- ===== src/Quota/Limits.antt =====
-- What the checks of src/common/quota.rs keep within the limits.
use minikv.Prelude.{
  ◌∙◌, ap, ℕ, ◌+◌, ◌-◌, ◌^◌, ◌≤◌, ◌<◌, ◌≡◌, ◌≢◌, refl, arith, String, true, Option, none, some,
  List, [], ◌∷◌, length, length-append, nat_eq, string_eq,
}
use minikv.HashMap.{HashMap, lookup, insert}
use minikv.HashMap.Laws.{lookup-insert_self, lookup-insert}
use minikv.Quota.{
  no_usage, default_rate_window, TenantQuota, TenantUsage, QuotaManager, allowed, quota_of,
  get_usage, check_storage, check_rate, record_request, check_and_record_request,
  record_storage_add, record_storage_remove, add_usage, remove_usage, fits, after,
}

length-after : (start : ℕ) (ts : List ℕ) → length (after start ts) ≤ length ts
unfolding after
length-after start [] = omega arith
length-after start (t ∷ ts) = ground (arith, length-after start ts)

abbrev pub usage_of : Option TenantUsage → TenantUsage
usage_of o = elim o [ none ↦ no_usage | some u ↦ u ]

-- The usage that was stored is the one that is read.
stored_usage :
    (tenant_id : String) (u : TenantUsage) (usage : HashMap String TenantUsage)
    → usage_of (lookup tenant_id (insert tenant_id u usage)) ≡ u
stored_usage tenant_id u usage = ap usage_of (lookup-insert_self tenant_id u usage)

within_rate :
    (now : ℕ) (quota : TenantQuota) (u : TenantUsage)
    → quota.rate_limit ≢ 0
    → quota.rate_limit < 2 ^ 32
    → length u.request_times ≤ quota.rate_limit
    → (length (check_rate now quota u).0.request_times ≤ quota.rate_limit)
      × ((check_rate now quota u).1 ≡ true
          → length (record_request now (check_rate now quota u).0).request_times ≤ quota.rate_limit)
unfolding check_rate record_request
within_rate now quota u some_limit fits32 h = ground (
  arith,
  length-after (now - default_rate_window) u.request_times,
  length-append (after (now - default_rate_window) u.request_times) (now ∷ []),
)

-- The requests on record are never more than the limit of a tenant that has one (of 32 bits): where
-- they were not before a request, they are not after it, whether it is allowed, refused or of a
-- disabled tenant.
pub check_and_record_request-within_rate :
    (now : ℕ) (tenant_id : String) (m : QuotaManager)
    → let limit = (quota_of tenant_id m).rate_limit in
      limit ≢ 0
      → limit < 2 ^ 32
      → length (get_usage tenant_id m).request_times ≤ limit
      → length (get_usage tenant_id (check_and_record_request now tenant_id m).0).request_times
        ≤ limit
unfolding check_and_record_request
check_and_record_request-within_rate now tenant_id m some_limit fits32 h =
    let quota = quota_of tenant_id m in
    let checked = check_rate now quota (get_usage tenant_id m) in
    let bounds = within_rate now quota (get_usage tenant_id m) some_limit fits32 h in
    ground (
      arith,
      bounds,
      stored_usage tenant_id checked.0 m.usage,
      stored_usage tenant_id (record_request now checked.0) m.usage,
    )

-- A write of so many bytes that is allowed for a tenant with a storage limit, and then recorded, leaves
-- the tenant within its limit, if the sum fits 64 bits.
pub record_storage_add-within_limit :
    (tenant_id : String) (bytes : ℕ) (m : QuotaManager)
    → let limit = (quota_of tenant_id m).storage_limit in
      limit ≢ 0
      → (get_usage tenant_id m).storage_used + bytes < 2 ^ 64
      → check_storage tenant_id bytes m ≡ allowed
      → (get_usage tenant_id (record_storage_add tenant_id bytes m)).storage_used ≤ limit
unfolding check_storage record_storage_add add_usage fits
record_storage_add-within_limit tenant_id bytes m some_limit fits64 ok =
    rw (stored_usage tenant_id (add_usage bytes 1 (get_usage tenant_id m)) m.usage) (ground arith)

-- For an enabled tenant with a limit of 64 bits, a sum of the storage used and the bytes asked for
-- that is beyond 64 bits, but by less than the limit, wraps, and the write is allowed.
pub check_storage_wraps :
    (tenant_id : String) (bytes : ℕ) (m : QuotaManager)
    → (quota_of tenant_id m).enabled ≡ true
    → 2 ^ 64 ≤ (get_usage tenant_id m).storage_used + bytes
    → (get_usage tenant_id m).storage_used + bytes < 2 ^ 64 + (quota_of tenant_id m).storage_limit
    → (quota_of tenant_id m).storage_limit < 2 ^ 64
    → check_storage tenant_id bytes m ≡ allowed
unfolding check_storage fits
check_storage_wraps tenant_id bytes m on over small limit64 = ground arith

remove_usage-add_usage :
    (bytes : ℕ) (u : TenantUsage)
    → u.storage_used + bytes < 2 ^ 64
    → u.object_count + 1 < 2 ^ 64
    → remove_usage bytes 1 (add_usage bytes 1 u) ≡ u
unfolding add_usage remove_usage
remove_usage-add_usage bytes u b c = ground arith

restored :
    (tenant_id other : String) (u : TenantUsage) (usage : HashMap String TenantUsage)
    → usage_of (
        lookup other
          (insert tenant_id (usage_of (lookup tenant_id usage)) (insert tenant_id u usage)))
      ≡ usage_of (lookup other usage)
restored tenant_id other u usage = ground (
  arith,
  string_eq.eqb_iff tenant_id other,
  lookup-insert tenant_id other (usage_of (lookup tenant_id usage)) (insert tenant_id u usage),
  lookup-insert tenant_id other u usage,
)

record_storage_remove_known :
    (tenant_id : String) (bytes : ℕ) (u : TenantUsage) (m : QuotaManager)
    → lookup tenant_id m.usage ≡ some u
    → record_storage_remove tenant_id bytes m
      ≡ record m { usage = insert tenant_id (remove_usage bytes 1 u) m.usage }
unfolding record_storage_remove
record_storage_remove_known tenant_id bytes u m h = rw (h, record_storage_remove) refl

-- Removing what was added gives the usage of the tenant back, if nothing saturated; the other tenants
-- keep theirs at both.
pub record_storage_remove-record_storage_add :
    (tenant_id other : String) (bytes : ℕ) (m : QuotaManager)
    → (get_usage tenant_id m).storage_used + bytes < 2 ^ 64
    → (get_usage tenant_id m).object_count + 1 < 2 ^ 64
    → get_usage other (record_storage_remove tenant_id bytes (record_storage_add tenant_id bytes m))
      ≡ get_usage other m
unfolding record_storage_add
record_storage_remove-record_storage_add tenant_id other bytes m b c =
    let u = get_usage tenant_id m in
    let added = add_usage bytes 1 u in
    ap (get_usage other) (
      record_storage_remove_known tenant_id bytes added (record_storage_add tenant_id bytes m)
        (lookup-insert_self tenant_id added m.usage))
    ∙ ap (λ v. usage_of (lookup other (insert tenant_id v (insert tenant_id added m.usage))))
        (remove_usage-add_usage bytes u b c)
    ∙ restored tenant_id other added m.usage
