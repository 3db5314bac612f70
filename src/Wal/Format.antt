-- ===== src/Wal/Format.antt =====
-- The bytes of an entry, written in one piece, and what the reader makes of them.
use minikv.Prelude.{
  ℕ, ◌≡◌, refl, sym, ◌∙◌, true, Option, some, none, [], ◌∷◌, ◌++◌, length, nat_eq, list_eq,
  append_assoc,
}
use minikv.Errors.{ok}
use minikv.Bytes.{
  read_size, from_utf8_ok, one_byte, Bytes, IsU32, IsU64, le_bytes, from_le_bytes,
  from_le_bytes-le_bytes, length-le_bytes, read_exact, read_exact-append, bind-read_exact,
  bind-lift, bind-eq, is_utf8, Reader, ◌>>=◌,
}
use minikv.External.{Crc32, sum_agrees}
use minikv.Disk.{BufWriter, stream, stream-write_all}
use minikv.Wal.{
  WalEntry, WalOp, put, delete, op_put, op_delete, wal_magic, u32_bytes, checksum_data, write_entry,
  read_entry, after_magic, read_fields, read_value, to_wal_op,
}

abbrev pub FitsOp : WalOp → Type 0
FitsOp (put key value) = (is_utf8 key ≡ true) × IsU32 (length key) × IsU32 (length value)
FitsOp (delete key) = (is_utf8 key ≡ true) × IsU32 (length key)

-- The sizes and the key are ones that the format can hold.
pub record IsStorable (e : WalEntry) : Type 0 where
  pub sequence_fits : IsU64 e.sequence
  pub op_fits : FitsOp e.op

module _ (crc : Crc32) where
  pub record_bytes : ℕ → ℕ → Bytes → Bytes → Bytes
  record_bytes sequence op key val =
      let body = checksum_data sequence op key val in
      wal_magic ++ (body ++ le_bytes 4 (crc.hash body))

  pub entry_bytes : WalEntry → Bytes
  unfolding record_bytes
  entry_bytes e = elim e.op [
    | put key value ↦ record_bytes e.sequence op_put key value
    | delete key ↦ record_bytes e.sequence op_delete key []
  ]

  -- The seven or eight writes of `write_entry` add one record to the stream.
  pub stream-write_entry-put :
      (sequence : ℕ) (key value : Bytes) (w : BufWriter)
      → stream (write_entry crc sequence op_put key (some value) w)
        ≡ stream w ++ entry_bytes (record { sequence = sequence; op = put key value })
  unfolding write_entry entry_bytes checksum_data
  stream-write_entry-put sequence key value w = simp (stream-write_all, append_assoc)

  pub stream-write_entry-delete :
      (sequence : ℕ) (key : Bytes) (w : BufWriter)
      → stream (write_entry crc sequence op_delete key none w)
        ≡ stream w ++ entry_bytes (record { sequence = sequence; op = delete key })
  unfolding write_entry entry_bytes checksum_data
  stream-write_entry-delete sequence key w = simp (stream-write_all, append_assoc)

  bind-read_value-put :
      (val ys : Bytes) (f : Option Bytes → Reader WalEntry)
      → IsU32 (length val)
      → (read_value crc (from_le_bytes (op_put ∷ [])) (from_le_bytes (u32_bytes (length val)))
            >>= f)
          (val ++ ys)
        ≡ f (some val) ys
  bind-read_value-put val ys f h = bind-eq reader (val ++ ys) (some val) ys f value
    where
      reader : Reader (Option Bytes)
      reader = read_value crc (from_le_bytes (op_put ∷ [])) (from_le_bytes (u32_bytes (length val)))

      value : reader (val ++ ys) ≡ ok (some val, ys)
      value =
          unfold read_value in
          rw one_byte (rw (read_size (length val) h) (bind-read_exact _ val ys _ refl))

  bind-read_value-delete :
      (n : ℕ) (s : Bytes) (f : Option Bytes → Reader WalEntry)
      → (read_value crc (from_le_bytes (op_delete ∷ [])) n >>= f) s ≡ f none s
  unfolding read_value
  bind-read_value-delete n s f = rw one_byte refl

  read_sum :
      (d : Bytes) (rest : Bytes) (g : Bytes → Reader WalEntry)
      → (read_exact 4 >>= g) (le_bytes 4 (crc.hash d) ++ rest) ≡ g (le_bytes 4 (crc.hash d)) rest
  read_sum d rest g = bind-read_exact 4 _ rest g (length-le_bytes 4 _)

  module _ (sequence : ℕ) (key rest : Bytes) (fits : IsU64 sequence) (utf8 : is_utf8 key ≡ true)
      (short : IsU32 (length key)) where
    read_fields-put :
        (val : Bytes)
        → IsU32 (length val)
        → read_fields crc (
            checksum_data sequence op_put key val
            ++ (le_bytes 4 (crc.hash (checksum_data sequence op_put key val)) ++ rest))
          ≡ ok (record { sequence = sequence; op = put key val }, rest)
    unfolding read_fields checksum_data to_wal_op
    read_fields-put val small = simp append_assoc (
        bind-read_exact 8 (le_bytes 8 sequence) _ _ (length-le_bytes 8 sequence)
        ∙ bind-read_exact 1 (op_put ∷ []) _ _ refl
        ∙ bind-read_exact 4 (u32_bytes (length key)) _ _ (length-le_bytes 4 _)
        ∙ bind-read_exact 4 (u32_bytes (length val)) _ _ (length-le_bytes 4 _)
        ∙ bind-read_exact _ key _ _ (sym (read_size (length key) short))
        ∙ bind-lift _ key _ _ (from_utf8_ok _ key utf8)
        ∙ bind-read_value-put val _ _ small
        ∙ read_sum (checksum_data sequence op_put key val) rest _
        ∙ rw (sum_agrees crc (checksum_data sequence op_put key val))
            (rw (one_byte, from_le_bytes-le_bytes 8 sequence fits)))

    read_fields-delete :
        read_fields crc (
          checksum_data sequence op_delete key []
          ++ (le_bytes 4 (crc.hash (checksum_data sequence op_delete key [])) ++ rest))
        ≡ ok (record { sequence = sequence; op = delete key }, rest)
    unfolding read_fields checksum_data to_wal_op
    read_fields-delete = simp append_assoc (
        bind-read_exact 8 (le_bytes 8 sequence) _ _ (length-le_bytes 8 sequence)
        ∙ bind-read_exact 1 (op_delete ∷ []) _ _ refl
        ∙ bind-read_exact 4 (u32_bytes (length key)) _ _ (length-le_bytes 4 _)
        ∙ bind-read_exact 4 (u32_bytes 0) _ _ (length-le_bytes 4 _)
        ∙ bind-read_exact _ key _ _ (sym (read_size (length key) short))
        ∙ bind-lift _ key _ _ (from_utf8_ok _ key utf8)
        ∙ bind-read_value-delete _ _ _
        ∙ read_sum (checksum_data sequence op_delete key []) rest _
        ∙ rw (sum_agrees crc (checksum_data sequence op_delete key []))
            (rw (one_byte, from_le_bytes-le_bytes 8 sequence fits)))

  read_entry-record :
      (sequence op : ℕ) (key val rest : Bytes) (e : WalEntry)
      → read_fields crc (
          checksum_data sequence op key val
          ++ (le_bytes 4 (crc.hash (checksum_data sequence op key val)) ++ rest))
        ≡ ok (e, rest)
      → read_entry crc (record_bytes sequence op key val ++ rest) ≡ ok (some e, rest)
  unfolding read_entry after_magic record_bytes
  read_entry-record sequence op key val rest e h =
      let body = checksum_data sequence op key val in
      rw (append_assoc body (le_bytes 4 (crc.hash body)) rest) (
        rw
          (
            read_exact-append 4 wal_magic (body ++ (le_bytes 4 (crc.hash body) ++ rest)) refl,
            read_entry,
          )
          (bind-eq (read_fields crc) _ e rest _ h))

  -- An entry that the format can hold reads back from its bytes, and what follows them is left for
  -- the next read.
  pub read_entry-entry_bytes :
      (e : WalEntry) (rest : Bytes)
      → IsStorable e
      → read_entry crc (entry_bytes e ++ rest) ≡ ok (some e, rest)
  unfolding entry_bytes
  read_entry-entry_bytes e rest h = go e.op h.op_fits
    where
      go :
          (op : WalOp)
          → FitsOp op
          → read_entry crc (entry_bytes (record { sequence = e.sequence; op = op }) ++ rest)
            ≡ ok (some (record { sequence = e.sequence; op = op }), rest)
      go (put key value) (utf8, short, small) =
          read_entry-record e.sequence op_put key value rest _
            (read_fields-put e.sequence key rest h.sequence_fits utf8 short value small)
      go (delete key) (utf8, short) =
          read_entry-record e.sequence op_delete key [] rest _
            (read_fields-delete e.sequence key rest h.sequence_fits utf8 short)

  pub entry_bytes_front : (e : WalEntry) → (body : Bytes) × (entry_bytes e ≡ wal_magic ++ body)
  unfolding entry_bytes
  entry_bytes_front e = go e.op
    where
      go :
          (op : WalOp)
          → (body : Bytes) × (entry_bytes (record { sequence = e.sequence; op = op })
              ≡ wal_magic ++ body)
      go (put key value) = (_, refl)
      go (delete key) = (_, refl)
