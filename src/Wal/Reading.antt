-- ===== src/Wal/Reading.antt =====
-- `read_entry` on any bytes: what it takes, and what it does not look at.
use minikv.Prelude.{
  false, take, ℕ, ◌+◌, ◌≤◌, ◌≡◌, ◌∙◌, some, none, ◌++◌, arith, length, length-append, ltb, ltb→lt,
  ◌<◌, sym, ◌==◌, nat_eq, list_eq, Bool-cases, inl, inr,
}
use minikv.Errors.{err, ok, wal}
use minikv.Bytes.{
  read_exact_eof, read_exact_ok, bind-eq, Bytes, read_exact, from_utf8, from_le_bytes, fail, lift,
  ◌>>=◌, pure, IsLocal-read_some, IsLocal, IsLocal-read_exact, IsLocal-pure, IsLocal-fail,
  IsLocal-lift, IsLocal-if, IsLocal-bind,
}
use minikv.External.{Crc32}
use minikv.Wal.{
  wal_magic, WalEntry, read_entry, read_fields, read_value, to_wal_op, op_put, after_magic,
}

module _ (crc : Crc32) where
  read_value-IsLocal : (op n : ℕ) → IsLocal 0 (read_value crc op n)
  unfolding read_value
  read_value-IsLocal op n =
      IsLocal-if 0 (op == op_put) (do val ← read_exact n; pure (some val)) (pure none)
        (IsLocal-bind 0 0 (read_exact n) _ (IsLocal-read_some n) λ val. IsLocal-pure (some val))
        (IsLocal-pure none)

  read_fields-IsLocal : IsLocal 21 (read_fields crc)
  unfolding read_fields
  read_fields-IsLocal = IsLocal-bind 8 13 (read_exact 8) _ (IsLocal-read_exact 8) λ seq_bytes.
      IsLocal-bind 1 12 (read_exact 1) _ (IsLocal-read_exact 1) λ op_bytes.
        IsLocal-bind 4 8 (read_exact 4) _ (IsLocal-read_exact 4) λ key_len_bytes.
          IsLocal-bind 4 4 (read_exact 4) _ (IsLocal-read_exact 4) λ val_len_bytes.
            IsLocal-bind 0 4 (read_exact _) _ (IsLocal-read_some _) λ key_bytes.
              IsLocal-bind 0 4 (lift (from_utf8 (wal "Invalid UTF-8 in key") key_bytes)) _
                (IsLocal-lift _)
                λ key.
                  IsLocal-bind 0 4
                    (read_value crc (from_le_bytes op_bytes) (from_le_bytes val_len_bytes)) _
                    (read_value-IsLocal _ _)
                    λ value.
                      IsLocal-bind 4 0 (read_exact 4) _ (IsLocal-read_exact 4) λ checksum_bytes.
                        IsLocal-if 0 _ (fail (wal "Checksum mismatch")) _ (IsLocal-fail _ 0) (
                          IsLocal-bind 0 0 (lift (to_wal_op crc (from_le_bytes op_bytes) key value))
                            _ (IsLocal-lift _) λ op. IsLocal-pure _)

  after_magic-IsLocal : (magic : Bytes) → IsLocal 21 (after_magic crc magic)
  unfolding after_magic
  after_magic-IsLocal magic =
      IsLocal-if 21 _ (fail (wal "Invalid WAL magic")) _ (IsLocal-fail _ 21) (
        IsLocal-bind 21 0 (read_fields crc) _ read_fields-IsLocal
          λ entry. IsLocal-pure (some entry))

  -- Fewer than four bytes are the end of the log.
  pub read_entry_end : (s : Bytes) → length s < 4 → read_entry crc s ≡ ok (none, s)
  unfolding read_entry
  read_entry_end s h = rw (read_exact_eof 4 s h, read_entry)

  read_entry-eq :
      (s : Bytes) → 4 ≤ length s → read_entry crc s ≡ (read_exact 4 >>= after_magic crc) s
  unfolding read_entry
  read_entry-eq s h =
      let e = read_exact_ok 4 s h in
      rw (e, read_entry) (sym (bind-eq (read_exact 4) s _ _ (after_magic crc) e))

  reader-IsLocal : IsLocal 25 (read_exact 4 >>= after_magic crc)
  reader-IsLocal = IsLocal-bind 4 21 (read_exact 4) _ (IsLocal-read_exact 4) after_magic-IsLocal

  has_magic :
      (s : Bytes) (e : WalEntry) (r : Bytes) → read_entry crc s ≡ ok (some e, r) → 4 ≤ length s
  has_magic s e r h = elim (Bool-cases (ltb (length s) 4)) [
    | inl short ↦ absurd (cc (h, read_entry_end s (ltb→lt _ _ short)))
    | inr long ↦ ground arith
  ]

  -- An entry takes 25 bytes at least.
  pub read_entry_shorter :
      (s : Bytes) (e : WalEntry) (r : Bytes)
      → read_entry crc s ≡ ok (some e, r)
      → length r + 25 ≤ length s
  read_entry_shorter s e r h =
      reader-IsLocal.shorten s (some e) r (sym (read_entry-eq s (has_magic s e r h)) ∙ h)

  -- Reading an entry does not look past it.
  pub read_entry-append :
      (s more : Bytes) (e : WalEntry) (r : Bytes)
      → read_entry crc s ≡ ok (some e, r)
      → read_entry crc (s ++ more) ≡ ok (some e, r ++ more)
  read_entry-append s more e r h =
      let long = has_magic s e r h in
      read_entry-eq (s ++ more) (omega (arith, length-append {0} s more))
      ∙ reader-IsLocal.extend s more (some e) r (sym (read_entry-eq s long) ∙ h)

  -- Four bytes that are not the magic are an error, whatever follows.
  pub read_entry_bad_magic :
      (s : Bytes)
      → 4 ≤ length s
      → (take 4 s == wal_magic) ≡ false
      → read_entry crc s ≡ err (wal "Invalid WAL magic")
  unfolding after_magic
  read_entry_bad_magic s long h =
      read_entry-eq s long
      ∙ bind-eq (read_exact 4) s _ _ (after_magic crc) (read_exact_ok 4 s long)
      ∙ rw h
