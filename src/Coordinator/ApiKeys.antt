-- ===== src/Coordinator/ApiKeys.antt =====
-- src/coordinator/http.rs: the handlers of API keys, on the key store. The defaults of a missing tenant
-- and role are those of the request's deserialization.
use minikv.Prelude.{
  ℕ, ◌*◌, ◌⊎◌, inl, inr, Bool, ◌||◌, Option, none, some, List, [], map, nat_eq, list_eq, ◌==◌,
  if◌then◌else◌,
}
use minikv.Bytes.{Bytes}
use minikv.Text.{ascii, to_lowercase}
use minikv.Auth.{Role, admin, read_write, read_only, ApiKey, AuthError, Credentials, KeyStore}
use minikv.Auth.Store.{
  Draws, generate_key, get_key, list_keys, list_keys_for_tenant, revoke_key, delete_key,
}
use minikv.Auth.Middleware.{role_name}
use minikv.Coordinator.{KeyChangeEvent}

abbrev pub default_tenant : Bytes
default_tenant = ascii "default"

pub record CreateKeyRequest : Type 0 where
  pub name : Bytes
  pub tenant : Bytes
  pub role : Bytes
  pub expires_in_secs : Option ℕ

pub record CreateKeyResponse : Type 0 where
  pub id : Bytes
  pub key : Bytes
  pub tenant : Bytes
  pub role : Bytes
  pub warning : Bytes

-- An answer with 201, 400 or 500.
pub data CreateAnswer : Type 0 where
  created : CreateKeyResponse → CreateAnswer
  invalid_role : CreateAnswer
  failed : AuthError → CreateAnswer

unfoldable pub parse_role : Bytes → Option Role
unfolding to_lowercase
parse_role text =
    let lower = to_lowercase text in
    if lower == ascii "admin"
    then some admin
    else if (lower == ascii "read_write") || (lower == ascii "readwrite") || (lower == ascii "rw")
    then some read_write
    else if (lower == ascii "read_only")
        || (lower == ascii "readonly")
        || (lower == ascii "ro")
        || (lower == [])
    then some read_only
    else none

-- What is told of a key: all but its hash.
pub record SafeKey : Type 0 where
  pub id : Bytes
  pub name : Bytes
  pub tenant : Bytes
  pub role : Bytes
  pub active : Bool
  pub created_at : ℕ
  pub expires_at : Option ℕ
  pub last_used_at : Option ℕ

abbrev pub safe_key : ApiKey → SafeKey
safe_key k = record {
  id = k.id;
  name = k.name;
  tenant = k.tenant;
  role = role_name k.role;
  active = k.active;
  created_at = k.created_at;
  expires_at = k.expires_at;
  last_used_at = k.last_used_at;
}

-- The keys of the answer; its `total` is their number.
unfoldable pub admin_list_keys : Option Bytes → KeyStore → List SafeKey
unfolding list_keys list_keys_for_tenant
admin_list_keys (some tenant) store = map safe_key (list_keys_for_tenant tenant store)
admin_list_keys none store = map safe_key (list_keys store)

-- A key that is not there is answered with 404.
unfoldable pub admin_get_key : Bytes → KeyStore → Option SafeKey
unfolding get_key
admin_get_key key_id store = elim (get_key key_id store) [
  | some k ↦ some (safe_key k)
  | none ↦ none
]

-- The change that is sent, or the error that is answered with 404.
abbrev pub announced :
    Bytes → Bytes → ℕ → KeyStore × (AuthError ⊎ Unit {0}) → KeyStore × (AuthError ⊎ KeyChangeEvent)
announced event key_id timestamp (store, inl e) = (store, inl e)
announced event key_id timestamp (store, inr done) =
    (store, inr (record { event = event; key = key_id; tenant = none; timestamp = timestamp }))

unfoldable pub admin_revoke_key : Bytes → ℕ → KeyStore → KeyStore × (AuthError ⊎ KeyChangeEvent)
unfolding revoke_key
admin_revoke_key key_id timestamp store =
    announced (ascii "revoke") key_id timestamp (revoke_key key_id store)

unfoldable pub admin_delete_key : Bytes → ℕ → KeyStore → KeyStore × (AuthError ⊎ KeyChangeEvent)
unfolding delete_key
admin_delete_key key_id timestamp store =
    announced (ascii "delete") key_id timestamp (delete_key key_id store)

module _ (lib : Credentials) where
  abbrev pub create_answer :
      CreateKeyRequest → Role → KeyStore × (AuthError ⊎ (Bytes × Bytes)) → KeyStore × CreateAnswer
  create_answer req role (store, inl e) = (store, failed e)
  create_answer req role (store, inr (id, key)) = (
    store,
    created (record {
      id = id;
      key = key;
      tenant = req.tenant;
      role = role_name role;
      warning = ascii "Store this key securely - it cannot be retrieved again!";
    }),
  )

  unfoldable pub admin_create_key :
      ℕ → Draws → CreateKeyRequest → KeyStore → KeyStore × CreateAnswer
  unfolding parse_role generate_key
  admin_create_key now draws req store = elim (parse_role req.role) [
    | none ↦ (store, invalid_role)
    | some role ↦
        let expires_in : Option ℕ = elim req.expires_in_secs [
          | some secs ↦ some (secs * 1000)
          | none ↦ none
        ] in
        create_answer req role
          (generate_key lib now draws req.name req.tenant role expires_in store)
  ]
