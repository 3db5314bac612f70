-- ===== src/Auth.antt =====
-- src/common/auth.rs and src/common/auth_middleware.rs: API keys, tokens, and who may do what. Texts are
-- their bytes. The clock, in milliseconds, the random bytes, the salt and the new identifier are drawn by
-- the caller and handed in. A map is iterated in the order of its list, which the program leaves open.
pub mod Store
pub mod Middleware
pub mod Issued
pub mod Invariant
pub mod Revoked
pub mod Tokens
pub mod Access
mod Tests
use minikv.Prelude.{
  ℕ, ◌+◌, ◌*◌, ◌/◌, ◌%◌, ◌^◌, ◌≡◌, ◌<◌, ◌⊎◌, inl, inr, Bool, true, false, not, ◌&&◌, Option, none,
  some, List, [], ◌∷◌, ◌++◌, leb, nat_eq, list_eq, ◌==◌, if◌then◌else◌,
}
use minikv.Bytes.{Bytes}
use minikv.HashMap.{HashMap, lookup, insert, remove}
use minikv.Text.{ascii, starts_with, split_space, to_lowercase}

abbrev pub api_key_prefix : Bytes
api_key_prefix = ascii "mkv_"

abbrev pub jwt_expiration_hours : ℕ
jwt_expiration_hours = 24

pub data Role : Type 0 where
  admin read_write read_only : Role

unfoldable pub can_write : Role → Bool
can_write admin = true
can_write read_write = true
can_write read_only = false

unfoldable pub can_admin : Role → Bool
can_admin admin = true
can_admin read_write = false
can_admin read_only = false

unfoldable pub can_read : Role → Bool
can_read role = true

pub record ApiKey : Type 0 where
  pub id : Bytes
  pub name : Bytes
  pub key_hash : Bytes
  pub tenant : Bytes
  pub role : Role
  pub created_at : ℕ
  pub expires_at : Option ℕ
  pub active : Bool
  pub last_used_at : Option ℕ

unfoldable pub is_expired : ℕ → ApiKey → Bool
is_expired now key = elim key.expires_at [ some expires_at ↦ leb expires_at now | none ↦ false ]

unfoldable pub is_valid : ℕ → ApiKey → Bool
unfolding is_expired
is_valid now key = key.active && not (is_expired now key)

pub record Claims : Type 0 where
  pub sub : Bytes
  pub tenant : Bytes
  pub role : Role
  pub exp : ℕ
  pub iat : ℕ

pub record AuthContext : Type 0 where
  pub key_id : Bytes
  pub tenant : Bytes
  pub role : Role

pub data AuthResult : Type 0 where
  ok : AuthContext → AuthResult
  missing : AuthResult
  invalid : Bytes → AuthResult
  expired : AuthResult
  forbidden : Bytes → AuthResult

-- `denied` is `Forbidden`, a name that `AuthResult` has too.
pub data AuthError : Type 0 where
  hash_error jwt_error key_not_found unauthorized denied : Bytes → AuthError

-- The libraries argon2, base64 and jsonwebtoken. A failure carries its text. A password verifies against a
-- hash that was made of it, and a token that was made with a secret is read with it until it expires.
pub record Credentials : Type 1 where
  pub ParsedHash : Type 0
  pub hash_password : Bytes → Bytes → Bytes ⊎ Bytes
  pub parse_hash : Bytes → Option ParsedHash
  pub verify_password : Bytes → ParsedHash → Bool
  pub base64_url : Bytes → Bytes
  pub encode : Claims → Bytes → Bytes ⊎ Bytes
  pub decode : ℕ → Bytes → Bytes → Bytes ⊎ Claims
  pub verify-hash :
      (password salt hash : Bytes)
      → hash_password password salt ≡ inr hash
      → (parsed : ParsedHash) × (parse_hash hash ≡ some parsed)
        × (verify_password password parsed ≡ true)
  pub decode-encode :
      (seconds : ℕ) (claims : Claims) (secret token : Bytes)
      → encode claims secret ≡ inr token
      → seconds < claims.exp
      → decode seconds token secret ≡ inr claims

-- The two keys for tokens are made of the one secret.
pub record KeyStore : Type 0 where
  pub keys : HashMap Bytes ApiKey
  pub hash_to_id : HashMap Bytes Bytes
  pub secret : Bytes
