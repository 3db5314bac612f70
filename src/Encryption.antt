-- ===== src/Encryption.antt =====
-- src/common/encryption.rs: values encrypted at rest. The ciphers, the derivation of keys and base64 are
-- an interface; the random nonce is drawn by the caller and handed in. What an error prints of a
-- library's error is that library's text.
pub mod RoundTrip
mod Tests
use minikv.Prelude.{
  ℕ, ◌+◌, ◌≡◌, ◌⊎◌, inl, inr, Bool, true, false, not, ◌&&◌, Option, none, some, List, [], ◌∷◌, ◌++◌,
  ltb, leb, length, take, drop, nat_eq, list_eq, ◌==◌, if◌then◌else◌,
}
use minikv.Bytes.{Bytes}
use minikv.Text.{ascii, decimal}

abbrev pub nonce_size : ℕ
nonce_size = 12

abbrev pub tag_size : ℕ
tag_size = 16

abbrev pub encryption_magic : Bytes
encryption_magic = ascii "MKVENC01"

pub record EncryptionConfig : Type 0 where
  pub enabled : Bool
  pub master_key : Option Bytes
  pub key_contexts : List Bytes

abbrev pub default_config : EncryptionConfig
default_config = record {
  enabled = false;
  master_key = none;
  key_contexts = ascii "minikv-data" ∷ ascii "minikv-wal" ∷ ascii "minikv-index" ∷ [];
}

pub data EncryptionError : Type 0 where
  not_enabled : EncryptionError
  invalid_key encryption_failed decryption_failed invalid_format key_derivation_failed :
      Bytes → EncryptionError

pub record EncryptedData : Type 0 where
  pub nonce : Bytes
  pub ciphertext : Bytes

unfoldable pub to_bytes : EncryptedData → Bytes
to_bytes data_of = encryption_magic ++ data_of.nonce ++ data_of.ciphertext

unfoldable pub from_bytes : Bytes → EncryptionError ⊎ EncryptedData
from_bytes bytes =
    let min_size = length encryption_magic + nonce_size + tag_size in
    if ltb (length bytes) min_size
    then inl (
        invalid_format (
          ascii "Data too short: "
          ++ decimal (length bytes)
          ++ ascii " bytes, minimum "
          ++ decimal min_size
          ++ ascii " bytes"))
    else if not (take (length encryption_magic) bytes == encryption_magic)
    then inl (invalid_format (ascii "Invalid magic bytes - data may not be encrypted"))
    else inr (record {
      nonce = take nonce_size (drop (length encryption_magic) bytes);
      ciphertext = drop (length encryption_magic + nonce_size) bytes;
    })

unfoldable pub is_encrypted : Bytes → Bool
is_encrypted bytes =
    leb (length encryption_magic) (length bytes)
    && (take (length encryption_magic) bytes == encryption_magic)

-- The libraries aes_gcm, hkdf and base64; a failure carries its text. What was encrypted is decrypted by
-- the same cipher and nonce, and is longer than the text by the tag.
pub record Ciphers : Type 1 where
  pub Cipher : Type 0
  pub new_from_slice : Bytes → Bytes ⊎ Cipher
  pub encrypt : Cipher → Bytes → Bytes → Bytes ⊎ Bytes
  pub decrypt : Cipher → Bytes → Bytes → Bytes ⊎ Bytes
  pub expand : Bytes → Bytes → Bytes ⊎ Bytes
  pub base64_decode : Bytes → Bytes ⊎ Bytes
  pub base64_encode : Bytes → Bytes
  pub decrypt-encrypt :
      (cipher : Cipher) (nonce plain sealed : Bytes)
      → encrypt cipher nonce plain ≡ inr sealed
      → decrypt cipher nonce sealed ≡ inr plain
  pub length-encrypt :
      (cipher : Cipher) (nonce plain sealed : Bytes)
      → encrypt cipher nonce plain ≡ inr sealed
      → length sealed ≡ length plain + 16

abbrev pub map_err {ℓ} : {A : Type ℓ} → (Bytes → EncryptionError) → Bytes ⊎ A → EncryptionError ⊎ A
map_err f (inl e) = inl (f e)
map_err f (inr a) = inr a

module _ (lib : Ciphers) where
  pub record EncryptionManager : Type 0 where
    pub config : EncryptionConfig
    pub data_key : Option Bytes
    pub wal_key : Option Bytes
    pub data_cipher : Option lib.Cipher
    pub wal_cipher : Option lib.Cipher

  abbrev pub new_manager : EncryptionManager
  new_manager = record {
    config = default_config;
    data_key = none;
    wal_key = none;
    data_cipher = none;
    wal_cipher = none;
  }

  unfoldable pub derive_key : Bytes → Bytes → EncryptionError ⊎ Bytes
  derive_key master_key context = map_err key_derivation_failed (lib.expand master_key context)

  -- The end of `initialize`: the ciphers, one after the other; the first failure ends it.
  unfoldable pub set_ciphers :
      Bytes → Bytes → Bytes → EncryptionManager → EncryptionManager × (EncryptionError ⊎ Unit {0})
  set_ciphers master_key key_for_data key_for_wal m = elim (lib.new_from_slice key_for_data) [
    | inl e ↦ (m, inl (invalid_key (ascii "Failed to create cipher: " ++ e)))
    | inr cipher ↦
        let with_data = record m { data_cipher = some cipher } in
        elim (lib.new_from_slice key_for_wal) [
          | inl e ↦ (with_data, inl (invalid_key (ascii "Failed to create WAL cipher: " ++ e)))
          | inr second ↦ (
            record with_data {
              wal_cipher = some second;
              config = record m.config { enabled = true; master_key = some master_key };
            },
            inr tt,
          )
        ]
  ]

  -- The middle of `initialize`: the keys, from the bytes of the master key.
  unfoldable pub set_keys :
      Bytes → Bytes → EncryptionManager → EncryptionManager × (EncryptionError ⊎ Unit {0})
  unfolding derive_key set_ciphers
  set_keys master_key key_bytes m = elim (derive_key key_bytes (ascii "minikv-data")) [
    | inl e ↦ (m, inl e)
    | inr key_for_data ↦
        let with_data = record m { data_key = some key_for_data } in
        elim (derive_key key_bytes (ascii "minikv-wal")) [
          | inl e ↦ (with_data, inl e)
          | inr key_for_wal ↦
              set_ciphers master_key key_for_data key_for_wal
                (record with_data { wal_key = some key_for_wal })
        ]
  ]

  unfoldable pub initialize :
      Bytes → EncryptionManager → EncryptionManager × (EncryptionError ⊎ Unit {0})
  unfolding set_keys
  initialize master_key m = elim (lib.base64_decode master_key) [
    | inl e ↦ (m, inl (invalid_key (ascii "Invalid base64: " ++ e)))
    | inr key_bytes ↦
        if ltb (length key_bytes) 32
        then (
          m,
          inl (
              invalid_key (
                ascii "Master key too short: "
                ++ decimal (length key_bytes)
                ++ ascii " bytes, minimum 32 bytes")),
        )
        else set_keys master_key key_bytes m
  ]

  abbrev pub is_some {ℓ} : {A : Type ℓ} → Option A → Bool
  is_some none = false
  is_some (some a) = true

  unfoldable pub is_enabled : EncryptionManager → Bool
  is_enabled m = m.config.enabled && is_some m.data_cipher

  -- The body that `encrypt` and `encrypt_wal` share, for the nonce that is drawn.
  abbrev pub seal : Option lib.Cipher → Bytes → Bytes → EncryptionError ⊎ EncryptedData
  seal none nonce plaintext = inl not_enabled
  seal (some cipher) nonce plaintext = elim (lib.encrypt cipher nonce plaintext) [
    | inl e ↦ inl (encryption_failed e)
    | inr ciphertext ↦ inr (record { nonce = nonce; ciphertext = ciphertext })
  ]

  -- The body that `decrypt` and `decrypt_wal` share.
  abbrev pub unseal : Option lib.Cipher → EncryptedData → EncryptionError ⊎ Bytes
  unseal none encrypted = inl not_enabled
  unseal (some cipher) encrypted =
      map_err decryption_failed (lib.decrypt cipher encrypted.nonce encrypted.ciphertext)

  unfoldable pub encrypt : Bytes → Bytes → EncryptionManager → EncryptionError ⊎ EncryptedData
  encrypt nonce plaintext m = seal m.data_cipher nonce plaintext

  unfoldable pub decrypt : EncryptedData → EncryptionManager → EncryptionError ⊎ Bytes
  decrypt encrypted m = unseal m.data_cipher encrypted

  unfoldable pub encrypt_wal : Bytes → Bytes → EncryptionManager → EncryptionError ⊎ EncryptedData
  encrypt_wal nonce plaintext m = seal m.wal_cipher nonce plaintext

  unfoldable pub decrypt_wal : EncryptedData → EncryptionManager → EncryptionError ⊎ Bytes
  decrypt_wal encrypted m = unseal m.wal_cipher encrypted

  unfoldable pub encrypt_bytes : Bytes → Bytes → EncryptionManager → EncryptionError ⊎ Bytes
  unfolding is_enabled encrypt to_bytes
  encrypt_bytes nonce plaintext m =
      if not (is_enabled m) then inr plaintext else (elim (encrypt nonce plaintext m) [
        | inl e ↦ inl e
        | inr encrypted ↦ inr (to_bytes encrypted)
      ])

  unfoldable pub decrypt_bytes : Bytes → EncryptionManager → EncryptionError ⊎ Bytes
  unfolding is_enabled is_encrypted from_bytes decrypt
  decrypt_bytes stored m =
      if not (is_enabled m)
      then inr stored
      else if not (is_encrypted stored)
      then inr stored
      else (elim (from_bytes stored) [ inl e ↦ inl e | inr encrypted ↦ decrypt encrypted m ])

  unfoldable pub maybe_encrypt : Bytes → Bytes → EncryptionManager → Bytes
  unfolding encrypt_bytes
  maybe_encrypt nonce plain m = elim (encrypt_bytes nonce plain m) [
    | inl e ↦ plain
    | inr stored ↦ stored
  ]

  unfoldable pub maybe_decrypt : Bytes → EncryptionManager → Bytes
  unfolding decrypt_bytes
  maybe_decrypt stored m = elim (decrypt_bytes stored m) [ inl e ↦ stored | inr plain ↦ plain ]

  -- `generate_master_key`, of the random bytes.
  unfoldable pub generate_master_key : Bytes → Bytes
  generate_master_key random = lib.base64_encode random
