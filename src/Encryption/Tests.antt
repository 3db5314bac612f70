-- ===== src/Encryption/Tests.antt =====
-- The encryption of src/common/encryption.rs with a cipher that only adds a tag of zeros.
use minikv.Prelude.{
  ◌+◌, ◌≡◌, refl, sym, ap, ◌∙◌, arith, ◌⊎◌, inr, true, none, some, ◌++◌, length, replicate, drop,
  nat_eq, list_eq,
}
use minikv.Bytes.{Bytes}
use minikv.Text.{ascii}
use minikv.Encryption.{
  Ciphers, EncryptionManager, default_config, EncryptedData, to_bytes, encrypt_bytes, decrypt_bytes,
}
use minikv.Encryption.RoundTrip.{decrypt_bytes-encrypt_bytes}

abbrev tag : Bytes
tag = replicate 16 0

-- What is in front of the last `n` bytes.
abbrev without_tag : Bytes → Bytes
without_tag sealed = drop 16 sealed

abbrev sealed_by : Bytes → Bytes
sealed_by plain = tag ++ plain

opened_again :
    (plain sealed : Bytes)
    → ◌≡◌ {A = Bytes ⊎ Bytes} (inr (sealed_by plain)) (inr sealed)
    → ◌≡◌ {A = Bytes ⊎ Bytes} (inr (without_tag sealed)) (inr plain)
opened_again plain sealed e =
    let same : sealed_by plain ≡ sealed = ground (arith, e) in
    ap (λ l. inr (without_tag l)) (sym same)

sealed_length :
    (plain sealed : Bytes)
    → ◌≡◌ {A = Bytes ⊎ Bytes} (inr (sealed_by plain)) (inr sealed)
    → length sealed ≡ length plain + 16
sealed_length plain sealed e =
    let same : sealed_by plain ≡ sealed = ground (arith, e) in ap length (sym same) ∙ omega arith

abbrev tagging : Ciphers
tagging = record {
  Cipher = Bytes;
  new_from_slice = λ key. inr key;
  encrypt = λ cipher nonce plain. inr (sealed_by plain);
  decrypt = λ cipher nonce sealed. inr (without_tag sealed);
  expand = λ key context. inr key;
  base64_decode = λ text. inr text;
  base64_encode = λ bytes. bytes;
  decrypt-encrypt = λ cipher nonce plain sealed e. opened_again plain sealed e;
  length-encrypt = λ cipher nonce plain sealed e. sealed_length plain sealed e;
}

abbrev manager : EncryptionManager tagging
manager = record {
  config = record default_config { enabled = true };
  data_key = none;
  wal_key = none;
  data_cipher = some (ascii "key");
  wal_cipher = none;
}

abbrev nonce_1 : Bytes
nonce_1 = replicate 12 7

abbrev plain_1 : Bytes
plain_1 = ascii "hello"

abbrev sealed_1 : EncryptedData
sealed_1 = record { nonce = nonce_1; ciphertext = sealed_by plain_1 }

stored_1 : encrypt_bytes tagging nonce_1 plain_1 manager ≡ inr (to_bytes sealed_1)
unfolding encrypt_bytes
stored_1 = refl

decrypt_bytes-encrypt_bytes_example :
    decrypt_bytes tagging (to_bytes sealed_1) manager ≡ inr plain_1
decrypt_bytes-encrypt_bytes_example =
    decrypt_bytes-encrypt_bytes tagging nonce_1 plain_1 (to_bytes sealed_1) manager refl stored_1
