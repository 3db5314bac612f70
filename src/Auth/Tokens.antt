-- ===== src/Auth/Tokens.antt =====
-- src/common/auth.rs: how long a token stands for the context it was made of.
use minikv.Prelude.{
  ℕ, ◌+◌, ◌*◌, ◌/◌, ◌<◌, ◌≡◌, refl, ◌∙◌, arith, inr, List, [], ◌∷◌, ◌++◌, nat_eq, list_eq,
}
use minikv.Bytes.{Bytes}
use minikv.Text.{ascii}
use minikv.Auth.{jwt_expiration_hours, AuthContext, ok, Claims, Credentials, KeyStore}
use minikv.Auth.Store.{
  generate_key, revoke_key, delete_key, touch_key, generate_jwt, validate_jwt, authenticate,
}
use minikv.Auth.Invariant.{Event, generate, revoke, delete, touch, step, run}

module _ (lib : Credentials) where
  step-secret : (e : Event) (store : KeyStore) → (step lib e store).secret ≡ store.secret
  unfolding step generate_key revoke_key delete_key touch_key
  step-secret (generate now draws name tenant role expires_in) store = ground arith
  step-secret (revoke id) store = ground arith
  step-secret (delete id) store = ground arith
  step-secret (touch now id) store = ground arith

  run-secret : (es : List Event) (store : KeyStore) → (run lib es store).secret ≡ store.secret
  unfolding run
  run-secret [] store = refl
  run-secret (e ∷ es) store = run-secret es (step lib e store) ∙ step-secret e store

  authenticate-bearer :
      (now : ℕ) (token : Bytes) (store : KeyStore)
      → authenticate lib now (ascii "Bearer " ++ token) store ≡ validate_jwt lib now token store
  unfolding authenticate
  authenticate-bearer now token store = refl

  validate_jwt-encode :
      (later : ℕ) (claims : Claims) (token : Bytes) (store : KeyStore)
      → lib.encode claims store.secret ≡ inr token
      → later / 1000 < claims.exp
      → validate_jwt lib later token store
        ≡ ok (record { key_id = claims.sub; tenant = claims.tenant; role = claims.role })
  unfolding validate_jwt
  validate_jwt-encode later claims token store made before =
      let decoded = lib.decode-encode (later / 1000) claims store.secret token made before in
      ground (arith, decoded, before)

  -- A token that was made for a context authenticates as that context for 24 hours, whatever keys are
  -- generated, revoked, deleted or touched in between.
  pub authenticate-generate_jwt :
      (now later : ℕ) (ctx : AuthContext) (token : Bytes) (store : KeyStore) (es : List Event)
      → generate_jwt lib now ctx store ≡ inr token
      → later / 1000 < now / 1000 + 24 * 3600
      → authenticate lib later (ascii "Bearer " ++ token) (run lib es store) ≡ ok ctx
  unfolding generate_jwt
  authenticate-generate_jwt now later ctx token store es made before =
      let claims : Claims = record {
        sub = ctx.key_id;
        tenant = ctx.tenant;
        role = ctx.role;
        exp = now / 1000 + jwt_expiration_hours * 3600;
        iat = now / 1000;
      } in
      let encoded : lib.encode claims store.secret ≡ inr token = ground (arith, made) in
      authenticate-bearer later token (run lib es store)
      ∙ validate_jwt-encode later claims token (run lib es store) (rw (run-secret es store) encoded)
          before
