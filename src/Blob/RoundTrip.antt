-- ===== src/Blob/RoundTrip.antt =====
-- What is written to a segment is read back from its location.
use minikv.Prelude.{
  nat_eq, ℕ, ◌+◌, ◌-◌, ◌%◌, ◌^◌, ◌≡◌, refl, sym, ap, ◌∙◌, arith, Bool, true, false, Option, some,
  ◌++◌, append_assoc, length, take, drop, replicate, length-take, length-replicate, length-append,
  drop-append, if◌then◌else◌,
}
use minikv.Bytes.{
  Bytes, ◌>>=◌, read_exact, IsU32, IsU64, le_bytes, from_le_bytes, from_le_bytes-le_bytes,
  length-le_bytes, bind-read_exact, read_size,
}
use minikv.Errors.{ok, err}
use native.Mathlib.Nat.{mod-eq_of_lt}
use minikv.External.{sum_agrees, Crc32, Blake3, Lz4}
use minikv.HashMap.{lookup}
use minikv.HashMap.Laws.{lookup-insert_self}
use minikv.Index.{BlobLocation}
use minikv.Blob.Format.{
  Segments, CompressionMode, write_at, opened, compressed, checksum_data, blob_bytes,
  write_blob_to_segment, decoded, read_body, after_magic, read_blob, blob_magic,
  blob_magic_compressed,
}

front_length :
    (offset : ℕ) (content : Bytes)
    → length (take offset content ++ replicate (offset - length content) 0) ≡ offset
front_length offset content = omega (
  arith,
  length-append (take offset content) (replicate (offset - length content) 0),
  length-take offset content,
  length-replicate {0} {A = ℕ} (offset - length content) 0,
)

drop_front : (xs ys : Bytes) {n : ℕ} → length xs ≡ n → drop n (xs ++ ys) ≡ ys
drop_front xs ys e = rw (← e) (drop-append xs ys)

-- Reading at the offset of a write gives what was written there first.
pub drop-write_at :
    (offset : ℕ) (bytes content : Bytes)
    → drop offset (write_at offset bytes content) ≡ bytes ++ drop (offset + length bytes) content
unfolding write_at
drop-write_at offset bytes content =
    ap (drop offset) (
      sym (
        append_assoc (take offset content) (replicate (offset - length content) 0)
          (bytes ++ drop (offset + length bytes) content)))
    ∙ drop_front _ _ (front_length offset content)

pub read_word : (n : ℕ) → IsU64 n → from_le_bytes (le_bytes 8 (n % 2 ^ 64)) ≡ n
read_word n h = rw (mod-eq_of_lt h) (from_le_bytes-le_bytes 8 n (omega arith))

module _ (crc : Crc32) (codec : Lz4) where
  read_body-blob_bytes :
      (flag : Bool) (key value rest : Bytes) (size : ℕ)
      → IsU32 (length key)
      → IsU64 (length value)
      → IsU64 size
      → read_body crc codec flag (
          checksum_data crc codec key value size
          ++ (le_bytes 4 (crc.hash (checksum_data crc codec key value size)) ++ rest))
        ≡ decoded crc codec flag size value rest
  unfolding read_body checksum_data
  read_body-blob_bytes flag key value rest size k v s = simp append_assoc (
      bind-read_exact 4 (le_bytes 4 (length key % 2 ^ 32)) _ _ (length-le_bytes 4 _)
      ∙ bind-read_exact 8 (le_bytes 8 (length value % 2 ^ 64)) _ _ (length-le_bytes 8 _)
      ∙ bind-read_exact 8 (le_bytes 8 (size % 2 ^ 64)) _ _ (length-le_bytes 8 _)
      ∙ bind-read_exact _ key _ _ (sym (read_size (length key) k))
      ∙ bind-read_exact _ value _ _ (sym (read_word (length value) v))
      ∙ bind-read_exact 4 (le_bytes 4 (crc.hash (checksum_data crc codec key value size))) _ _
          (length-le_bytes 4 _)
      ∙ rw (sum_agrees crc (checksum_data crc codec key value size), read_word size s) refl)

  read_record :
      (flag : Bool) (key value rest : Bytes) (size : ℕ)
      → IsU32 (length key)
      → IsU64 (length value)
      → IsU64 size
      → (read_exact 4 >>= after_magic crc codec) (
          ((if flag then blob_magic_compressed else blob_magic)
            ++ (checksum_data crc codec key value size
                ++ le_bytes 4 (crc.hash (checksum_data crc codec key value size))))
          ++ rest)
        ≡ decoded crc codec flag size value rest
  unfolding after_magic
  read_record true key value rest size k v s = simp append_assoc (
      bind-read_exact 4 blob_magic_compressed _ _ refl
      ∙ read_body-blob_bytes true key value rest size k v s)
  read_record false key value rest size k v s =
      simp append_assoc (
        bind-read_exact 4 blob_magic _ _ refl
        ∙ read_body-blob_bytes false key value rest size k v s)

  -- What stored bytes stand for.
  abbrev pub unpacked : Bool → ℕ → Bytes → Option Bytes
  unpacked false size stored = some stored
  unpacked true size stored = codec.decompress stored size

  decoded-unpacked :
      (flag : Bool) (size : ℕ) (stored value rest : Bytes)
      → unpacked flag size stored ≡ some value
      → decoded crc codec flag size stored rest ≡ ok (value, rest)
  unfolding decoded
  decoded-unpacked false size stored value rest e = ground arith
  decoded-unpacked true size stored value rest e = rw (e, decoded) refl

  -- The bytes of a blob, from what is stored of its value.
  unfoldable pub record_of : Bool → Bytes → Bytes → ℕ → Bytes
  record_of flag key stored size =
      (if flag then blob_magic_compressed else blob_magic)
      ++ (checksum_data crc codec key stored size
          ++ le_bytes 4 (crc.hash (checksum_data crc codec key stored size)))

  pub blob_bytes-record_of :
      (mode : CompressionMode) (key value stored : Bytes) (flag : Bool)
      → compressed crc codec mode value ≡ (stored, flag)
      → blob_bytes crc codec mode key value ≡ record_of flag key stored (length value)
  unfolding blob_bytes record_of
  blob_bytes-record_of mode key value stored flag how = rw how refl

  -- Reading at a location where the segment has the bytes of a blob.
  pub read_blob-record_of :
      (segs : Segments) (location : BlobLocation) (content : Bytes) (flag : Bool)
      (key stored read rest : Bytes) (size : ℕ)
      → IsU32 (length key)
      → IsU64 (length stored)
      → IsU64 size
      → lookup location.shard segs ≡ some content
      → drop location.offset content ≡ record_of flag key stored size ++ rest
      → unpacked flag size stored ≡ some read
      → read_blob crc codec segs location ≡ ok (some read)
  unfolding read_blob record_of
  read_blob-record_of segs location content flag key stored read rest size k w v found at back =
      rw (found, read_blob)
        (rw (at, record_of)
          (ap (λ r. elim r [ ok (v, s) ↦ ok (some v) | err e ↦ err e ])
            (read_record flag key stored rest size k w v
              ∙ decoded-unpacked flag size stored read rest back)))

  -- When a blob was stored as these bytes, compressed or as they are, and they stand for a value, reading
  -- at the location of the write gives that value. The key and the sizes have to fit their fields.
  pub read_blob-write_blob_to_segment :
      (b3 : Blake3) (mode : CompressionMode) (segment offset : ℕ) (key value : Bytes)
      (segs : Segments) (stored read : Bytes) (flag : Bool)
      → IsU32 (length key)
      → IsU64 (length value)
      → IsU64 (length stored)
      → compressed crc codec mode value ≡ (stored, flag)
      → unpacked flag (length value) stored ≡ some read
      → let (segs2, location, written) =
          write_blob_to_segment crc codec b3 mode segment offset key value segs in
        read_blob crc codec segs2 location ≡ ok (some read)
  unfolding write_blob_to_segment
  read_blob-write_blob_to_segment b3 mode segment offset key value segs stored read flag k v w how
        back =
      let content = opened (lookup segment segs) in
      let bytes = blob_bytes crc codec mode key value in
      read_blob-record_of _ _ (write_at offset bytes content) flag key stored read
        (drop (offset + length bytes) content) (length value) k w v
        (lookup-insert_self segment (write_at offset bytes content) segs)
        (drop-write_at offset bytes content
          ∙ ap (λ b. b ++ drop (offset + length bytes) content)
              (blob_bytes-record_of mode key value stored flag how))
        back
