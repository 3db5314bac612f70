-- ===== src/Auth/Store.antt =====
-- `KeyStore` of src/common/auth.rs: the operations on the keys, and what a key or a token is answered with.
use minikv.Prelude.{
  ℕ, ◌+◌, ◌*◌, ◌/◌, ◌%◌, ◌^◌, ◌⊎◌, inl, inr, Bool, true, false, not, Option, none, some, List, [],
  ◌∷◌, ◌++◌, leb, nat_eq, list_eq, ◌==◌, if◌then◌else◌,
}
use minikv.Bytes.{Bytes}
use minikv.HashMap.{HashMap, lookup, insert, remove}
use minikv.Text.{ascii, starts_with, split_space, to_lowercase}
use minikv.Auth.{
  api_key_prefix, jwt_expiration_hours, Role, ApiKey, is_expired, Claims, AuthContext, AuthResult,
  ok, invalid, expired, AuthError, hash_error, jwt_error, key_not_found, Credentials, KeyStore,
}

unfoldable pub with_secret : Bytes → KeyStore
with_secret secret = record { keys = []; hash_to_id = []; secret = secret }

unfoldable pub get_key : Bytes → KeyStore → Option ApiKey
get_key key_id store = lookup key_id store.keys

unfoldable pub list_keys : KeyStore → List ApiKey
list_keys store = values store.keys
  where
    values : HashMap Bytes ApiKey → List ApiKey
    values [] = []
    values ((i, key) ∷ rest) = key ∷ values rest

unfoldable pub of_tenant : Bytes → List ApiKey → List ApiKey
of_tenant tenant [] = []
of_tenant tenant (key ∷ keys) =
    let rest = of_tenant tenant keys in if key.tenant == tenant then key ∷ rest else rest

unfoldable pub list_keys_for_tenant : Bytes → KeyStore → List ApiKey
unfolding list_keys of_tenant
list_keys_for_tenant tenant store = of_tenant tenant (list_keys store)

unfoldable pub revoke_key : Bytes → KeyStore → KeyStore × (AuthError ⊎ Unit {0})
revoke_key key_id store = elim (lookup key_id store.keys) [
  | some key ↦
      (record store { keys = insert key_id (record key { active = false }) store.keys }, inr tt)
  | none ↦ (store, inl (key_not_found key_id))
]

unfoldable pub delete_key : Bytes → KeyStore → KeyStore × (AuthError ⊎ Unit {0})
delete_key key_id store = elim (lookup key_id store.keys) [
  | some key ↦ (
    record store {
      keys = remove key_id store.keys;
      hash_to_id = remove key.key_hash store.hash_to_id;
    },
    inr tt,
  )
  | none ↦ (store, inl (key_not_found key_id))
]

unfoldable pub touch_key : ℕ → Bytes → KeyStore → KeyStore
touch_key now key_id store = elim (lookup key_id store.keys) [
  | some key ↦ record store {
    keys = insert key_id (record key { last_used_at = some now }) store.keys;
  }
  | none ↦ store
]

-- What `generate_key` draws.
pub record Draws : Type 0 where
  pub random_bytes : Bytes
  pub key_id : Bytes
  pub salt : Bytes

module _ (lib : Credentials) where
  unfoldable pub plaintext : Draws → Bytes
  plaintext draws = api_key_prefix ++ lib.base64_url draws.random_bytes

  -- `generate_key`: a length of time is its milliseconds, cut to 64 bits.
  unfoldable pub generate_key :
      ℕ
      → Draws
      → Bytes
      → Bytes
      → Role
      → Option ℕ
      → KeyStore
      → KeyStore × (AuthError ⊎ (Bytes × Bytes))
  unfolding plaintext
  generate_key now draws name tenant role expires_in store =
      elim (lib.hash_password (plaintext draws) draws.salt) [
        | inl e ↦ (store, inl (hash_error e))
        | inr key_hash ↦
            let api_key : ApiKey = record {
              id = draws.key_id;
              name = name;
              key_hash = key_hash;
              tenant = tenant;
              role = role;
              created_at = now;
              expires_at = elim expires_in [
                | some d ↦ some ((now + d % 2 ^ 64) % 2 ^ 64)
                | none ↦ none
              ];
              active = true;
              last_used_at = none;
            } in
            (
              record store {
                keys = insert draws.key_id api_key store.keys;
                hash_to_id = insert key_hash draws.key_id store.hash_to_id;
              },
              inr (draws.key_id, plaintext draws),
            )
      ]

  unfoldable pub verifies : Bytes → ApiKey → Bool
  verifies key api_key = elim (lib.parse_hash api_key.key_hash) [
    | some parsed ↦ lib.verify_password key parsed
    | none ↦ false
  ]

  -- What the key that was found is answered with.
  unfoldable pub verdict : ℕ → ApiKey → AuthResult
  unfolding is_expired
  verdict now key =
      if not key.active
      then invalid (ascii "Key is disabled")
      else if is_expired now key
      then expired
      else ok (record { key_id = key.id; tenant = key.tenant; role = key.role })

  unfoldable pub find_key : ℕ → Bytes → HashMap Bytes ApiKey → AuthResult
  unfolding verdict verifies
  find_key now key [] = invalid (ascii "Invalid API key")
  find_key now key ((i, api_key) ∷ rest) =
      let others = find_key now key rest in
      if verifies key api_key then verdict now api_key else others

  unfoldable pub validate_key : ℕ → Bytes → KeyStore → AuthResult
  unfolding find_key
  validate_key now key store =
      if starts_with api_key_prefix key
      then find_key now key store.keys
      else invalid (ascii "Invalid key format")

  unfoldable pub generate_jwt : ℕ → AuthContext → KeyStore → AuthError ⊎ Bytes
  generate_jwt now auth store =
      let seconds = now / 1000 in
      let claims : Claims = record {
        sub = auth.key_id;
        tenant = auth.tenant;
        role = auth.role;
        exp = seconds + jwt_expiration_hours * 3600;
        iat = seconds;
      } in
      elim (lib.encode claims store.secret) [ inl e ↦ inl (jwt_error e) | inr token ↦ inr token ]

  unfoldable pub validate_jwt : ℕ → Bytes → KeyStore → AuthResult
  validate_jwt now token store =
      let seconds = now / 1000 in
      elim (lib.decode seconds token store.secret) [
        | inr claims ↦
            if leb claims.exp seconds
            then expired
            else ok (record { key_id = claims.sub; tenant = claims.tenant; role = claims.role })
        | inl e ↦ invalid (ascii "Invalid JWT: " ++ e)
      ]

  unfoldable pub authenticate : ℕ → Bytes → KeyStore → AuthResult
  unfolding validate_jwt validate_key split_space to_lowercase
  authenticate now auth_header store = elim (split_space auth_header) [
    | none ↦ invalid (ascii "Invalid Authorization header format")
    | some parts ↦
        if to_lowercase parts.0 == ascii "bearer"
        then validate_jwt now parts.1 store
        else if to_lowercase parts.0 == ascii "apikey"
        then validate_key now parts.1 store
        else invalid (ascii "Unknown auth scheme: " ++ parts.0)
  ]
