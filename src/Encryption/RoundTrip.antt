-- ===== src/Encryption/RoundTrip.antt =====
-- src/common/encryption.rs: what is encrypted is decrypted to itself.
use minikv.Prelude.{
  ltb, drop-drop, ◌≤◌, ◌≡◌, ◌↔◌, refl, sym, ap, ◌∙◌, arith, inl, inr, Sum-cases, true, false,
  Bool-cases, Option-cases, some, ◌++◌, length, take, drop, take-append, drop-append,
  take-append-drop, length-append, length-drop, length-take, nat_eq, list_eq, list_beq_iff, ◌==◌,
}
use minikv.Bytes.{Bytes}
use minikv.Encryption.{
  encryption_magic, EncryptedData, to_bytes, from_bytes, is_encrypted, Ciphers, EncryptionManager,
  is_enabled, encrypt, decrypt, encrypt_bytes, decrypt_bytes, encrypt_wal, decrypt_wal,
  maybe_encrypt, maybe_decrypt, initialize, set_keys, set_ciphers,
}

-- A nonce and a tag of the sizes of the format.
abbrev pub HasSizes : EncryptedData → Type 0
HasSizes e = (length e.nonce ≡ 12) × (16 ≤ length e.ciphertext)

is_encrypted-to_bytes : (e : EncryptedData) → is_encrypted (to_bytes e) ≡ true
unfolding is_encrypted to_bytes
is_encrypted-to_bytes e = ground (arith)

from_bytes-to_bytes : (e : EncryptedData) → HasSizes e → from_bytes (to_bytes e) ≡ inr e
unfolding from_bytes to_bytes
from_bytes-to_bytes e (n, c) =
    let front : take 12 (e.nonce ++ e.ciphertext) ≡ e.nonce =
      ap (λ k. take k (e.nonce ++ e.ciphertext)) (sym n) ∙ take-append e.nonce e.ciphertext in
    let back : drop 12 (e.nonce ++ e.ciphertext) ≡ e.ciphertext =
      ap (λ k. drop k (e.nonce ++ e.ciphertext)) (sym n) ∙ drop-append e.nonce e.ciphertext in
    ground (arith, front, back, length-append e.nonce e.ciphertext, n, c)

-- What `from_bytes` takes out of the bytes.
abbrev parts : Bytes → EncryptedData
parts bytes = record { nonce = take 12 (drop 8 bytes); ciphertext = drop 20 bytes }

abbrev IsAccepted : Bytes → Type 0
IsAccepted bytes = (36 ≤ length bytes) × (take 8 bytes ≡ encryption_magic)

from_bytes-some :
    (bytes : Bytes) (e : EncryptedData)
    → from_bytes bytes ≡ inr e
    → IsAccepted bytes × (parts bytes ≡ e)
unfolding from_bytes
from_bytes-some bytes e h = elim (Bool-cases (ltb (length bytes) 36)) [
  | inl short ↦ ground (arith, h, short)
  | inr long ↦ elim (Bool-cases (take 8 bytes == encryption_magic)) [
    | inl magic ↦ (
      (ground (arith, long), (list_beq_iff (take 8 bytes) encryption_magic).0 magic),
      ground (arith, h, long, magic),
    )
    | inr other ↦ ground (arith, h, long, other)
  ]
]

to_bytes-parts :
    (bytes : Bytes) → IsAccepted bytes → HasSizes (parts bytes) × (to_bytes (parts bytes) ≡ bytes)
unfolding to_bytes
to_bytes-parts bytes (long, magic) =
    let rest : take 12 (drop 8 bytes) ++ drop 20 bytes ≡ drop 8 bytes =
      ap (λ l. take 12 (drop 8 bytes) ++ l) (drop-drop 12 8 bytes)
      ∙ take-append-drop 12 (drop 8 bytes) in
    (
      (
        omega (arith, length-take 12 (drop 8 bytes), length-drop 8 bytes),
        omega (arith, length-drop 20 bytes),
      ),
      ap (λ l. encryption_magic ++ l) rest
          ∙ ap (λ l. l ++ drop 8 bytes) (sym magic)
          ∙ take-append-drop 8 bytes,
    )

-- The format is read back exactly: bytes are read as some encrypted data, with a nonce and a tag of
-- their sizes, if and only if they are what that data is written as.
pub from_bytes-to_bytes_iff :
    (bytes : Bytes) (e : EncryptedData)
    → (from_bytes bytes ≡ inr e) ↔ (HasSizes e × (to_bytes e ≡ bytes))
from_bytes-to_bytes_iff bytes e = (
  λ h. (let (fine, same) = from_bytes-some bytes e h in rw (← same) (to_bytes-parts bytes fine)),
  λ (sizes, written). rw (← written) (from_bytes-to_bytes e sizes),
)

module _ (lib : Ciphers) where
  decrypt_bytes-sealed :
      (cipher : lib.Cipher) (nonce plain sealed : Bytes) (m : EncryptionManager lib)
      → is_enabled lib m ≡ true
      → m.data_cipher ≡ some cipher
      → length nonce ≡ 12
      → lib.encrypt cipher nonce plain ≡ inr sealed
      → decrypt_bytes lib (to_bytes (record { nonce = nonce; ciphertext = sealed })) m ≡ inr plain
  unfolding decrypt_bytes decrypt
  decrypt_bytes-sealed cipher nonce plain sealed m on has sized made =
      let e : EncryptedData = record { nonce = nonce; ciphertext = sealed } in
      let tagged : 16 ≤ length sealed =
        omega (arith, lib.length-encrypt cipher nonce plain sealed made) in
      rw
        (
          on,
          is_encrypted-to_bytes e,
          from_bytes-to_bytes e (sized, tagged),
          has,
          decrypt_bytes,
          lib.decrypt-encrypt cipher nonce plain sealed made,
        )
        refl

  -- What `encrypt_bytes` makes of a value, `decrypt_bytes` of the same manager makes the value again,
  -- whether encryption is on or off.
  pub decrypt_bytes-encrypt_bytes :
      (nonce plain stored : Bytes) (m : EncryptionManager lib)
      → length nonce ≡ 12
      → encrypt_bytes lib nonce plain m ≡ inr stored
      → decrypt_bytes lib stored m ≡ inr plain
  unfolding encrypt_bytes encrypt decrypt_bytes
  decrypt_bytes-encrypt_bytes nonce plain stored m sized made =
      elim (Bool-cases (is_enabled lib m)) [
        | inr off ↦ ground (arith, off, made)
        | inl on ↦ elim (Option-cases m.data_cipher) [
          | inl no_cipher ↦ ground (arith, on, no_cipher, made)
          | inr (cipher, has) ↦ elim (Sum-cases (lib.encrypt cipher nonce plain)) [
            | inl (e, failed) ↦ ground (arith, on, has, failed, made)
            | inr (sealed, done) ↦
                (let is_stored : to_bytes (record { nonce = nonce; ciphertext = sealed }) ≡ stored =
                    ground (arith, on, has, done, made) in
                  rw (← is_stored)
                    (decrypt_bytes-sealed cipher nonce plain sealed m on has sized done))
          ]
        ]
      ]

  decrypt_bytes-plain :
      (plain : Bytes) (m : EncryptionManager lib)
      → is_encrypted plain ≡ false
      → decrypt_bytes lib plain m ≡ inr plain
  unfolding decrypt_bytes
  decrypt_bytes-plain plain m not_magic = ground (arith, not_magic)

  -- A value that does not begin with the mark of encrypted data survives `maybe_encrypt` and
  -- `maybe_decrypt` on any manager, also where the encryption fails and the value itself is stored.
  pub maybe_decrypt-maybe_encrypt :
      (nonce plain : Bytes) (m : EncryptionManager lib)
      → length nonce ≡ 12
      → is_encrypted plain ≡ false
      → maybe_decrypt lib (maybe_encrypt lib nonce plain m) m ≡ plain
  unfolding maybe_decrypt maybe_encrypt
  maybe_decrypt-maybe_encrypt nonce plain m sized not_magic =
      elim (Sum-cases (encrypt_bytes lib nonce plain m)) [
        | inl (e, failed) ↦
            rw (failed, maybe_encrypt, maybe_decrypt, decrypt_bytes-plain plain m not_magic) refl
        | inr (stored, done) ↦
            rw
              (
                done,
                maybe_encrypt,
                maybe_decrypt,
                decrypt_bytes-encrypt_bytes nonce plain stored m sized done,
              )
              refl
      ]

  -- An entry of the log that was encrypted is decrypted to itself by the same manager.
  pub decrypt_wal-encrypt_wal :
      (nonce plain : Bytes) (e : EncryptedData) (m : EncryptionManager lib)
      → encrypt_wal lib nonce plain m ≡ inr e
      → decrypt_wal lib e m ≡ inr plain
  unfolding encrypt_wal decrypt_wal
  decrypt_wal-encrypt_wal nonce plain e m made = elim (Option-cases m.wal_cipher) [
    | inl no_cipher ↦ ground (arith, no_cipher, made)
    | inr (cipher, has) ↦ elim (Sum-cases (lib.encrypt cipher nonce plain)) [
      | inl (text, failed) ↦ ground (arith, has, failed, made)
      | inr (sealed, done) ↦
          ground (arith, has, done, made, lib.decrypt-encrypt cipher nonce plain sealed done)
    ]
  ]

  -- On a manager whose encryption is off, `initialize` turns it on exactly when it gives no error, and
  -- on an error leaves it off.
  pub is_enabled-initialize :
      (master_key : Bytes) (m : EncryptionManager lib)
      → m.config.enabled ≡ false
      → let (after, result) = initialize lib master_key m in
        (is_enabled lib after ≡ true) ↔ (result ≡ inr tt)
  unfolding initialize set_keys set_ciphers is_enabled
  is_enabled-initialize master_key m off = ground (arith, off)
