-- ===== src/Auth/Issued.antt =====
-- What src/common/auth.rs answers to the key that it has just generated.
use minikv.Prelude.{
  ℕ, ◌+◌, ◌%◌, ◌^◌, ◌≡◌, refl, ◌∙◌, arith, inr, Bool, true, false, Option, none, some, [], ◌∷◌,
  ◌++◌, leb, nat_eq, list_eq, ◌==◌, Bool-cases, inl, if◌then◌else◌,
}
use minikv.Bytes.{Bytes}
use minikv.HashMap.{HashMap, insert}
use minikv.Text.{starts_with-append, ascii}
use minikv.Auth.{api_key_prefix, Role, ApiKey, is_expired, ok, expired, Credentials, KeyStore}
use minikv.Auth.Store.{
  Draws, plaintext, generate_key, verifies, verdict, find_key, validate_key, authenticate,
}

module _ (lib : Credentials) where
  -- No key that is there verifies against the text.
  abbrev pub NoneVerifies : Bytes → HashMap Bytes ApiKey → Type 0
  NoneVerifies text [] = Unit {0}
  NoneVerifies text ((i, key) ∷ rest) = (verifies lib text key ≡ false) × NoneVerifies text rest

  find_key-insert :
      (now : ℕ) (text id : Bytes) (key : ApiKey) (keys : HashMap Bytes ApiKey)
      → NoneVerifies text keys
      → verifies lib text key ≡ true
      → find_key lib now text (insert id key keys) ≡ verdict lib now key
  unfolding find_key insert
  find_key-insert now text id key [] none_other mine = rw mine refl
  find_key-insert now text id key ((j, w) ∷ keys) (not_w, none_other) mine =
      elim (Bool-cases (j == id)) [
        | inl same ↦ rw (same, mine) refl
        | inr other ↦ rw (other, not_w) (find_key-insert now text id key keys none_other mine)
      ]

  -- The time at which a key that was generated for a length of time ends.
  abbrev pub ends_at : ℕ → Option ℕ → Option ℕ
  ends_at now none = none
  ends_at now (some d) = some ((now + d % 2 ^ 64) % 2 ^ 64)

  abbrev pub has_ended : ℕ → Option ℕ → Bool
  has_ended now none = false
  has_ended now (some t) = leb t now

  authenticate-apikey :
      (now : ℕ) (text : Bytes) (store : KeyStore)
      → authenticate lib now (ascii "ApiKey " ++ text) store ≡ validate_key lib now text store
  unfolding authenticate
  authenticate-apikey now text store = refl

  validate_key-prefixed :
      (now : ℕ) (suffix : Bytes) (store : KeyStore)
      → validate_key lib now (api_key_prefix ++ suffix) store
        ≡ find_key lib now (api_key_prefix ++ suffix) store.keys
  unfolding validate_key
  validate_key-prefixed now suffix store = rw (starts_with-append api_key_prefix suffix) refl

  verifies-made :
      (text salt hash : Bytes) (key : ApiKey)
      → lib.hash_password text salt ≡ inr hash
      → key.key_hash ≡ hash
      → verifies lib text key ≡ true
  unfolding verifies
  verifies-made text salt hash key hashed made =
      let (parsed, parses, verified) = lib.verify-hash text salt hash hashed in
      ground (arith, made, parses, verified)

  verdict_active :
      (later : ℕ) (expires_in : Option ℕ) (now : ℕ) (key : ApiKey)
      → key.active ≡ true
      → key.expires_at ≡ ends_at now expires_in
      → verdict lib later key ≡ (
          if has_ended later (ends_at now expires_in)
          then expired
          else ok (record { key_id = key.id; tenant = key.tenant; role = key.role }))
  unfolding verdict is_expired
  verdict_active later none now key active ends = ground (arith, active, ends)
  verdict_active later (some d) now key active ends = ground (arith, active, ends)

  -- A generated key authenticates with the identifier, the tenant and the role it was generated with
  -- until it ends, and is answered "expired" from then on, if hashing gave no error and no key that
  -- was there before verifies against its text.
  pub authenticate-generate_key :
      (now later : ℕ) (draws : Draws) (name tenant hash : Bytes) (role : Role)
      (expires_in : Option ℕ) (store : KeyStore)
      → lib.hash_password (plaintext lib draws) draws.salt ≡ inr hash
      → NoneVerifies (plaintext lib draws) store.keys
      → let (after, result) = generate_key lib now draws name tenant role expires_in store in
        (result ≡ inr (draws.key_id, plaintext lib draws))
        × (authenticate lib later (ascii "ApiKey " ++ plaintext lib draws) after ≡ (
            if has_ended later (ends_at now expires_in)
            then expired
            else ok (record { key_id = draws.key_id; tenant = tenant; role = role })))
  unfolding generate_key
  authenticate-generate_key now later draws name tenant hash role expires_in store hashed
        none_other =
      let text = plaintext lib draws in
      rw (hashed, generate_key)
        (
          refl,
          authenticate-apikey later text _
              ∙ validate_key-prefixed later (lib.base64_url draws.random_bytes) _
              ∙ find_key-insert later text draws.key_id _ store.keys none_other
                  (verifies-made text draws.salt hash _ hashed refl)
              ∙ verdict_active later expires_in now _ refl refl,
        )
