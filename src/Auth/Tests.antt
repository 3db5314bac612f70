-- ===== src/Auth/Tests.antt =====
-- The key store of src/common/auth.rs with a library whose hash of a password is the password and whose
-- token is the claims written out.
use minikv.Prelude.{
  ℕ, ◌<◌, ◌≡◌, ◌≢◌, refl, sym, ap, ◌∙◌, arith, inl, inr, ◌⊎◌, true, none, some, Option, List, [],
  ◌∷◌, ◌++◌, nat_eq, list_eq, eq_refl, ◌==◌, list_beq_iff, length, take, drop, take-append,
  drop-append, ltb, if◌then◌else◌,
}
use minikv.Bytes.{Bytes}
use minikv.HashMap.{lookup, insert}
use minikv.Text.{ascii, starts_with}
use minikv.Auth.{
  can_write, can_admin, Role, admin, read_write, read_only, AuthContext, ok, expired, Claims,
  Credentials, KeyStore,
}
use minikv.Auth.Store.{
  with_secret, Draws, plaintext, generate_key, touch_key, revoke_key, validate_key, generate_jwt,
  authenticate,
}
use minikv.Auth.Middleware.{
  AuthConfig, default_config, Request, passed, is_public, is_read, has_credentials, auth_middleware,
  credentials, require_write, require_admin, with_context,
}
use minikv.Auth.Issued.{has_ended, ends_at, authenticate-generate_key}
use minikv.Auth.Invariant.{
  Event, generate, revoke, touch, step, run, IsWellFormed, run-with_secret-IsWellFormed,
}
use minikv.Auth.Revoked.{revoked, validate_key-Withdrawal}
use minikv.Auth.Tokens.{authenticate-generate_jwt}
use minikv.Auth.Access.{
  IsAnswered, IsGuarded, behind, auth_middleware_lem, require_admin-auth_middleware,
}

abbrev role_code : Role → ℕ
role_code admin = 0
role_code read_write = 1
role_code read_only = 2

abbrev role_of : ℕ → Role
role_of n = if n == 0 then admin else if n == 1 then read_write else read_only

abbrev token_of : Claims → Bytes
token_of c = role_code c.role ∷ c.exp ∷ c.iat ∷ length c.sub ∷ (c.sub ++ c.tenant)

abbrev claims_of : ℕ → Bytes → Bytes ⊎ Claims
claims_of now (r ∷ e ∷ i ∷ n ∷ rest) =
    if ltb now e
    then inr
        (record { sub = take n rest; tenant = drop n rest; role = role_of r; exp = e; iat = i })
    else inl (ascii "ExpiredSignature")
claims_of now _ = inl (ascii "InvalidToken")

role_of-role_code : (r : Role) → role_of (role_code r) ≡ r
role_of-role_code admin = refl
role_of-role_code read_write = refl
role_of-role_code read_only = refl

claims_of-token_of : (now : ℕ) (c : Claims) → now < c.exp → claims_of now (token_of c) ≡ inr c
claims_of-token_of now c before = ground (
  arith,
  role_of-role_code c.role,
  take-append c.sub c.tenant,
  drop-append c.sub c.tenant,
  before,
)

token_read :
    (now : ℕ) (c : Claims) (t : Bytes)
    → ◌≡◌ {A = Bytes ⊎ Bytes} (inr (token_of c)) (inr t)
    → now < c.exp
    → claims_of now t ≡ inr c
token_read now c t e before =
    let is_t : token_of c ≡ t = ground (arith, e) in
    ap (claims_of now) (sym is_t) ∙ claims_of-token_of now c before

password_read :
    (p h : Bytes)
    → ◌≡◌ {A = Bytes ⊎ Bytes} (inr p) (inr h)
    → (x : Bytes) × (◌≡◌ {A = Option Bytes} (some h) (some x)) × ((p == x) ≡ true)
password_read p h e = let is_h : p ≡ h = ground (arith, e) in (h, refl, rw is_h (eq_refl h))

abbrev plain_credentials : Credentials
plain_credentials = record {
  ParsedHash = Bytes;
  hash_password = λ p s. inr p;
  parse_hash = λ h. some h;
  verify_password = λ p h. p == h;
  base64_url = λ b. b;
  encode = λ c k. inr (token_of c);
  decode = λ now t k. claims_of now t;
  verify-hash = λ p s h e. password_read p h e;
  decode-encode = λ now c k t e before. token_read now c t e before;
}

abbrev draws_1 : Draws
draws_1 = record { random_bytes = ascii "AAAA"; key_id = ascii "k1"; salt = ascii "s" }

abbrev draws_2 : Draws
draws_2 = record { random_bytes = ascii "BBBB"; key_id = ascii "k2"; salt = ascii "s" }

abbrev fresh_store : KeyStore
fresh_store = record { keys = []; hash_to_id = []; secret = ascii "secret" }

authenticate-generate_key_example :
    let (after, result) =
      generate_key plain_credentials 1000 draws_1
        (ascii "ci")
        (ascii "acme")
        read_write
        (some 500)
        fresh_store in
    (result ≡ inr (draws_1.key_id, plaintext plain_credentials draws_1))
    × (authenticate plain_credentials 1499
          (ascii "ApiKey " ++ plaintext plain_credentials draws_1)
          after
        ≡ (if has_ended plain_credentials 1499 (ends_at plain_credentials 1000 (some 500))
            then expired
            else ok (record { key_id = draws_1.key_id; tenant = ascii "acme"; role = read_write })))
unfolding plaintext
authenticate-generate_key_example =
    authenticate-generate_key plain_credentials 1000 1499 draws_1 (ascii "ci") (ascii "acme")
      (ascii "mkv_AAAA") read_write (some 500) fresh_store refl tt

abbrev history : List Event
history = generate 1000 draws_1 (ascii "ci") (ascii "acme") read_write none ∷ []

abbrev afterwards : List Event
afterwards =
    generate 2000 draws_2 (ascii "cd") (ascii "acme") admin none ∷ touch 2001 (ascii "k1") ∷ []

run-with_secret-IsWellFormed_example :
    IsWellFormed plain_credentials (run plain_credentials history (with_secret (ascii "secret")))
run-with_secret-IsWellFormed_example =
    run-with_secret-IsWellFormed plain_credentials (ascii "secret") history

k2_not_k1 : ascii "k2" ≢ ascii "k1"
k2_not_k1 e = ground (arith, (list_beq_iff (ascii "k2") (ascii "k1")).1 e)

second_key :
    validate_key plain_credentials 3000 (ascii "mkv_BBBB") (
      run plain_credentials afterwards (
        step plain_credentials
          (revoke (ascii "k1"))
          (run plain_credentials history (with_secret (ascii "secret")))))
    ≡ ok (record { key_id = ascii "k2"; tenant = ascii "acme"; role = admin })
unfolding validate_key run step starts_with touch_key lookup generate_key insert revoke_key
    with_secret
second_key = refl

validate_key-Withdrawal_example : ascii "k2" ≢ ascii "k1"
validate_key-Withdrawal_example =
    validate_key-Withdrawal plain_credentials (ascii "secret") (ascii "k1") history afterwards
      (revoke (ascii "k1")) 3000 (ascii "mkv_BBBB")
      (record { key_id = ascii "k2"; tenant = ascii "acme"; role = admin }) (revoked (ascii "k1"))
      (k2_not_k1, tt) second_key

abbrev writer : AuthContext
writer = record { key_id = ascii "k1"; tenant = ascii "acme"; role = read_write }

abbrev token : Bytes
token =
    token_of
      (record { sub = ascii "k1"; tenant = ascii "acme"; role = read_write; exp = 86401; iat = 1 })

token_made : generate_jwt plain_credentials 1000 writer fresh_store ≡ inr token
unfolding generate_jwt
token_made = refl

authenticate-generate_jwt_example :
    authenticate plain_credentials 5000
      (ascii "Bearer " ++ token)
      (run plain_credentials (revoke (ascii "k1") ∷ []) fresh_store)
    ≡ ok writer
authenticate-generate_jwt_example =
    authenticate-generate_jwt plain_credentials 1000 5000 writer token fresh_store
      (revoke (ascii "k1") ∷ []) token_made (omega arith)

abbrev guarded_config : AuthConfig
guarded_config = record default_config { enabled = true }

abbrev post : Request
post = record {
  path = ascii "/admin/keys";
  method = ascii "POST";
  authorization = some (
      ascii "Bearer "
      ++ token_of
          (record { sub = ascii "k2"; tenant = ascii "acme"; role = admin; exp = 86401; iat = 1 }));
  x_api_key = none;
  extension = none;
}

abbrev root : AuthContext
root = record { key_id = ascii "k2"; tenant = ascii "acme"; role = admin }

post-IsGuarded : IsGuarded plain_credentials guarded_config post
unfolding is_public is_read has_credentials starts_with
post-IsGuarded = (refl, refl, refl)

auth_middleware_lem_example : IsAnswered plain_credentials 5000 guarded_config post fresh_store
auth_middleware_lem_example =
    auth_middleware_lem plain_credentials 5000 guarded_config post fresh_store

post_written :
    behind require_write (auth_middleware plain_credentials 5000 guarded_config post fresh_store)
    ≡ passed (with_context (some root) post)
unfolding require_write auth_middleware starts_with authenticate can_write
post_written = refl

post_administered :
    behind require_admin (auth_middleware plain_credentials 5000 guarded_config post fresh_store)
    ≡ passed (with_context (some root) post)
unfolding require_admin auth_middleware starts_with authenticate can_admin
post_administered = refl

require_admin-auth_middleware_example :
    (ctx : AuthContext) × (credentials plain_credentials 5000 post fresh_store ≡ ok ctx)
    × (can_admin ctx.role ≡ true)
require_admin-auth_middleware_example =
    require_admin-auth_middleware plain_credentials 5000 guarded_config post
      (with_context (some root) post) fresh_store post_administered
