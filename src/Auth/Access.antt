-- ===== src/Auth/Access.antt =====
-- src/common/auth_middleware.rs: which requests pass the layers, and how the others are answered.
use minikv.Prelude.{
  sym, ◌≢◌, ℕ, ◌≡◌, refl, ap, ◌∙◌, arith, ◌⊎◌, inl, inr, true, false, not, ◌&&◌, Bool-cases,
  Option-cases, none, some, [], ◌∷◌, nat_eq, list_eq,
}
use minikv.Bytes.{Bytes}
use minikv.HashMap.{HashMap}
use minikv.Auth.{
  split_space, ApiKey, can_write, can_admin, AuthContext, AuthResult, ok, missing, invalid, expired,
  forbidden, Credentials, KeyStore,
}
use minikv.Auth.Store.{verdict, find_key, validate_key, validate_jwt, authenticate, touch_key}
use minikv.Auth.Middleware.{
  AuthConfig, Request, Response, Outcome, answered, passed, with_context, is_public, is_read,
  has_credentials, credentials, admit, auth_middleware, require_write, require_admin,
}

abbrev IsDecided : AuthResult → Type 0
IsDecided (forbidden m) = ⊥
IsDecided _ = Unit {0}

-- Valid credentials.
abbrev pub IsOk : AuthResult → Type 0
IsOk (ok ctx) = Unit {0}
IsOk _ = ⊥

-- A layer behind `auth_middleware`.
abbrev pub behind : (Request → Outcome) → KeyStore × Outcome → Outcome
behind layer (store, answered response) = answered response
behind layer (store, passed request) = layer request

module _ (lib : Credentials) where
  find_key-IsDecided :
      (now : ℕ) (text : Bytes) (m : HashMap Bytes ApiKey) → IsDecided (find_key lib now text m)
  unfolding find_key verdict
  find_key-IsDecided now text [] = tt
  find_key-IsDecided now text ((j, w) ∷ m) = ground (arith, find_key-IsDecided now text m)

  validate_key-IsDecided :
      (now : ℕ) (store : KeyStore) (text : Bytes) → IsDecided (validate_key lib now text store)
  unfolding validate_key
  validate_key-IsDecided now store text = ground (arith, find_key-IsDecided now text store.keys)

  validate_jwt-IsDecided :
      (now : ℕ) (store : KeyStore) (text : Bytes) → IsDecided (validate_jwt lib now text store)
  unfolding validate_jwt
  validate_jwt-IsDecided now store text = ground arith

  authenticate-IsDecided :
      (now : ℕ) (store : KeyStore) (text : Bytes) → IsDecided (authenticate lib now text store)
  unfolding authenticate
  authenticate-IsDecided now store text = elim (Option-cases (split_space text)) [
    | inl none_found ↦ rw (none_found, authenticate) tt
    | inr (parts, found) ↦
        rw (found, authenticate)
          (ground (
            arith,
            validate_jwt-IsDecided now store parts.1,
            validate_key-IsDecided now store parts.1,
          ))
  ]

  -- The store refuses nobody as forbidden.
  credentials-IsDecided :
      (now : ℕ) (request : Request) (store : KeyStore)
      → IsDecided (credentials lib now request store)
  unfolding credentials
  credentials-IsDecided now request store = elim (Option-cases request.authorization) [
    | inr (header, given) ↦ rw (given, credentials) (authenticate-IsDecided now store header)
    | inl no_header ↦ elim (Option-cases request.x_api_key) [
      | inr (key, given) ↦ rw (no_header, given, credentials) (validate_key-IsDecided now store key)
      | inl no_key ↦ rw (no_header, no_key, credentials) tt
    ]
  ]

  -- The request needs credentials: authentication is on, the path is not public, and it is not a read
  -- without credentials where those are let through.
  abbrev pub IsGuarded : AuthConfig → Request → Type 0
  IsGuarded config request =
      (config.enabled ≡ true)
      × (is_public request.path config.public_paths ≡ false)
      × ((not (has_credentials lib request)
            && is_read request.method
            && not config.require_auth_for_reads)
          ≡ false)

  admit_lem :
      (now : ℕ) (r : AuthResult) (request : Request) (store : KeyStore)
      → IsDecided r
      → ((ctx : AuthContext) × (r ≡ ok ctx)
          × (admit lib now r request store
              ≡ (touch_key now ctx.key_id store, passed (with_context (some ctx) request))))
        ⊎ ((¬ (IsOk r))
            × (response : Response) × (response.status ≡ 401)
            × (admit lib now r request store ≡ (store, answered response)))
  unfolding admit
  admit_lem now (ok ctx) request store h = inl (ctx, refl, refl)
  admit_lem now missing request store h = inr (λ h. h, _, refl, refl)
  admit_lem now (invalid m) request store h = inr (λ h. h, _, refl, refl)
  admit_lem now expired request store h = inr (λ h. h, _, refl, refl)
  admit_lem now (forbidden m) request store h = elim h [ ]

  -- What becomes of a request.
  abbrev pub IsAnswered : ℕ → AuthConfig → Request → KeyStore → Type 0
  IsAnswered now config request store =
      ((IsGuarded config request)
        × (((ctx : AuthContext) × (credentials lib now request store ≡ ok ctx)
              × (auth_middleware lib now config request store
                  ≡ (touch_key now ctx.key_id store, passed (with_context (some ctx) request))))
            ⊎ ((¬ (IsOk (credentials lib now request store)))
                × (response : Response) × (response.status ≡ 401)
                × (auth_middleware lib now config request store ≡ (store, answered response)))))
      ⊎ ((¬ (IsGuarded config request))
          × (auth_middleware lib now config request store
              ≡ (store, passed (with_context none request))))

  -- A request that needs credentials is passed on, with the context that they stand for and that
  -- key touched, if they are valid, and is answered with 401, with the store as it was, if they are not;
  -- one that needs none is passed on without a context. No request is answered with 403.
  pub auth_middleware_lem :
      (now : ℕ) (config : AuthConfig) (request : Request) (store : KeyStore)
      → IsAnswered now config request store
  unfolding auth_middleware
  auth_middleware_lem now config request store = elim (Bool-cases config.enabled) [
    | inr off ↦ inr (λ (also_on, private, needed). ground (arith, also_on, off), rw off refl)
    | inl on ↦ elim (Bool-cases (is_public request.path config.public_paths)) [
      | inl public ↦
          inr (λ (also_on, private, needed). ground (arith, public, private), rw (on, public) refl)
      | inr private ↦
          elim (Bool-cases (
            not (has_credentials lib request)
            && is_read request.method
            && not config.require_auth_for_reads)) [
              | inl free ↦ inr (
                λ (also_on, also_private, needed). ground (arith, free, needed),
                rw (on, private, free) refl,
              )
              | inr needed ↦ inl (
                (on, private, needed),
                rw (on, private, needed)
                    (admit_lem now (credentials lib now request store) request store
                      (credentials-IsDecided now request store)),
              )
            ]
    ]
  ]

  require_write-passed :
      (request seen : Request) (ctx : AuthContext)
      → require_write (with_context (some ctx) request) ≡ passed seen
      → can_write ctx.role ≡ true
  unfolding require_write
  require_write-passed request seen ctx h = ground (arith, h)

  require_admin-passed :
      (request seen : Request) (ctx : AuthContext)
      → require_admin (with_context (some ctx) request) ≡ passed seen
      → can_admin ctx.role ≡ true
  unfolding require_admin
  require_admin-passed request seen ctx h = ground (arith, h)

  require_admin-anonymous :
      (request seen : Request) → require_admin (with_context none request) ≢ passed seen
  unfolding require_admin
  require_admin-anonymous request seen h = ground (arith, h)

  -- A request that needs credentials gets past `require_write_middleware` behind `auth_middleware` only
  -- with credentials of a role that can write.
  pub require_write-auth_middleware :
      (now : ℕ) (config : AuthConfig) (request seen : Request) (store : KeyStore)
      → IsGuarded config request
      → behind require_write (auth_middleware lib now config request store) ≡ passed seen
      → (ctx : AuthContext) × (credentials lib now request store ≡ ok ctx)
        × (can_write ctx.role ≡ true)
  require_write-auth_middleware now config request seen store guarded through =
      elim (auth_middleware_lem now config request store) [
        | inr (free, e) ↦ absurd (free guarded)
        | inl (g, inr (bad, response, unauthorized, e)) ↦
            ground (arith, sym (ap (behind require_write) e) ∙ through)
        | inl (g, inl (ctx, known, e)) ↦ (
          ctx,
          known,
          require_write-passed request seen ctx (sym (ap (behind require_write) e) ∙ through),
        )
      ]

  -- Whatever the configuration, a request gets past `require_admin_middleware` behind
  -- `auth_middleware` only with credentials of an administrator.
  pub require_admin-auth_middleware :
      (now : ℕ) (config : AuthConfig) (request seen : Request) (store : KeyStore)
      → behind require_admin (auth_middleware lib now config request store) ≡ passed seen
      → (ctx : AuthContext) × (credentials lib now request store ≡ ok ctx)
        × (can_admin ctx.role ≡ true)
  require_admin-auth_middleware now config request seen store through =
      elim (auth_middleware_lem now config request store) [
        | inr (free, e) ↦
            absurd
              (require_admin-anonymous request seen (sym (ap (behind require_admin) e) ∙ through))
        | inl (g, inr (bad, response, unauthorized, e)) ↦
            ground (arith, sym (ap (behind require_admin) e) ∙ through)
        | inl (g, inl (ctx, known, e)) ↦ (
          ctx,
          known,
          require_admin-passed request seen ctx (sym (ap (behind require_admin) e) ∙ through),
        )
      ]
