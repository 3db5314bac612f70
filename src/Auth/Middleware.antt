-- ===== src/Auth/Middleware.antt =====
-- src/common/auth_middleware.rs: which requests reach the handler behind. Of a header there is the text
-- that `to_str` gives, if any, and of an answer the status and the fields of its JSON object.
use minikv.Prelude.{
  ℕ, Bool, true, false, not, ◌&&◌, ◌||◌, Option, none, some, List, [], ◌∷◌, list_eq, nat_eq, ◌==◌,
  if◌then◌else◌,
}
use minikv.Bytes.{Bytes}
use minikv.Text.{ascii, starts_with}
use minikv.Auth.{
  Role, admin, read_write, read_only, can_write, can_admin, AuthContext, AuthResult, ok, missing,
  invalid, expired, forbidden, Credentials, KeyStore,
}
use minikv.Auth.Store.{authenticate, validate_key, touch_key}

pub record AuthConfig : Type 0 where
  pub enabled : Bool
  pub jwt_secret : Option Bytes
  pub require_auth_for_reads : Bool
  pub public_paths : List Bytes

abbrev pub default_config : AuthConfig
default_config = record {
  enabled = false;
  jwt_secret = none;
  require_auth_for_reads = false;
  public_paths =
      ascii "/health" ∷ ascii "/health/ready" ∷ ascii "/health/live" ∷ ascii "/metrics" ∷ [];
}

-- `extension` is the `AuthExtension` among the request's extensions, if one is there.
pub record Request : Type 0 where
  pub path : Bytes
  pub method : Bytes
  pub authorization : Option Bytes
  pub x_api_key : Option Bytes
  pub extension : Option (Option AuthContext)

pub record Response : Type 0 where
  pub status : ℕ
  pub fields : List (Bytes × Bytes)

-- What a layer does: it answers by itself, or hands a request to the next one.
pub data Outcome : Type 0 where
  answered : Response → Outcome
  passed : Request → Outcome

abbrev pub refused : ℕ → List (Bytes × Bytes) → Outcome
refused status fields = answered (record { status = status; fields = fields })

unfoldable pub is_public : Bytes → List Bytes → Bool
is_public path [] = false
is_public path (p ∷ ps) = starts_with p path || is_public path ps

unfoldable pub is_read : Bytes → Bool
is_read method = (method == ascii "GET") || (method == ascii "HEAD") || (method == ascii "OPTIONS")

abbrev pub with_context : Option AuthContext → Request → Request
with_context ctx request = record request { extension = some ctx }

module _ (lib : Credentials) where
  -- The last `match` of `auth_middleware`.
  unfoldable pub admit : ℕ → AuthResult → Request → KeyStore → KeyStore × Outcome
  admit now (ok ctx) request store =
      (touch_key now ctx.key_id store, passed (with_context (some ctx) request))
  admit now missing request store = (
    store,
    refused 401 (
        (ascii "error", ascii "Authentication required")
        ∷ (ascii "hint", ascii "Provide Authorization header with 'Bearer <jwt>' or 'ApiKey <key>'")
        ∷ []),
  )
  admit now (invalid msg) request store = (
    store,
    refused 401 ((ascii "error", ascii "Invalid credentials") ∷ (ascii "message", msg) ∷ []),
  )
  admit now expired request store = (
    store,
    refused 401 (
        (ascii "error", ascii "Credentials expired")
        ∷ (ascii "hint", ascii "Please generate a new API key or refresh your token")
        ∷ []),
  )
  admit now (forbidden msg) request store =
      (store, refused 403 ((ascii "error", ascii "Access denied") ∷ (ascii "message", msg) ∷ []))

  -- The middle of `auth_middleware`: what the headers are worth.
  unfoldable pub credentials : ℕ → Request → KeyStore → AuthResult
  credentials now request store = elim request.authorization [
    | some header ↦ authenticate lib now header store
    | none ↦ elim request.x_api_key [ some key ↦ validate_key lib now key store | none ↦ missing ]
  ]

  unfoldable pub has_credentials : Request → Bool
  has_credentials request = elim request.authorization [
    | some header ↦ true
    | none ↦ elim request.x_api_key [ some key ↦ true | none ↦ false ]
  ]

  unfoldable pub auth_middleware : ℕ → AuthConfig → Request → KeyStore → KeyStore × Outcome
  unfolding is_public is_read admit credentials has_credentials
  auth_middleware now config request store =
      if not config.enabled
      then (store, passed (with_context none request))
      else if is_public request.path config.public_paths
      then (store, passed (with_context none request))
      else if not (has_credentials request)
          && is_read request.method
          && not config.require_auth_for_reads
      then (store, passed (with_context none request))
      else admit now (credentials now request store) request store

abbrev pub role_name : Role → Bytes
role_name admin = ascii "Admin"
role_name read_write = ascii "ReadWrite"
role_name read_only = ascii "ReadOnly"

unfoldable pub require_write : Request → Outcome
require_write request = elim request.extension [
  | some (some ctx) ↦
      if not (can_write ctx.role)
      then refused 403 (
          (ascii "error", ascii "Write permission required")
          ∷ (ascii "role", role_name ctx.role)
          ∷ [])
      else passed request
  | some none ↦ passed request
  | none ↦ passed request
]

unfoldable pub require_admin : Request → Outcome
require_admin request = elim request.extension [
  | some (some ctx) ↦
      if not (can_admin ctx.role)
      then refused 403 (
          (ascii "error", ascii "Admin permission required")
          ∷ (ascii "role", role_name ctx.role)
          ∷ [])
      else passed request
  | some none ↦ refused 403 (
      (ascii "error", ascii "Admin permission required")
      ∷ (ascii "hint", ascii "Authenticate with an admin API key")
      ∷ [])
  | none ↦ refused 403 (
      (ascii "error", ascii "Admin permission required")
      ∷ (ascii "hint", ascii "Authenticate with an admin API key")
      ∷ [])
]

unfoldable pub get_tenant_from_request : Request → Bytes
get_tenant_from_request request = elim request.extension [
  | some (some ctx) ↦ ctx.tenant
  | some none ↦ ascii "default"
  | none ↦ ascii "default"
]

unfoldable pub is_admin_request : Request → Bool
is_admin_request request = elim request.extension [
  | some (some ctx) ↦ can_admin ctx.role
  | some none ↦ false
  | none ↦ false
]
