-- ===== src/Blob/Format.antt =====
-- src/volume/blob.rs: one blob in a segment file, written and read.
use minikv.Prelude.{
  ℕ, ◌+◌, ◌-◌, ◌%◌, ◌^◌, Bool, true, false, not, ◌&&◌, Option, none, some, [], ◌∷◌, ◌++◌, ltb, leb,
  ◌==◌, nat_eq, list_eq, length, take, drop, replicate, if◌then◌else◌,
}
use minikv.Errors.{Result, ok, err, corrupted, checksum_mismatch}
use minikv.Bytes.{Bytes, Reader, fail, ◌>>=◌, read_exact, le_bytes, from_le_bytes}
use minikv.External.{Crc32, Blake3, Lz4}
use minikv.HashMap.{HashMap, lookup, insert}
use minikv.Index.{BlobLocation}

-- "BLOB", and "BLOC" for a compressed blob.
abbrev pub blob_magic : Bytes
blob_magic = 0x42 ∷ 0x4c ∷ 0x4f ∷ 0x42 ∷ []

abbrev pub blob_magic_compressed : Bytes
blob_magic_compressed = 0x42 ∷ 0x4c ∷ 0x4f ∷ 0x43 ∷ []

abbrev pub compression_threshold : ℕ
compression_threshold = 128

pub data CompressionMode : Type 0 where
  uncompressed lz4 : CompressionMode

abbrev pub Segments : Type 0
Segments = HashMap ℕ Bytes

-- A write of these bytes at an offset; a gap before it reads as zeros.
unfoldable pub write_at : ℕ → Bytes → Bytes → Bytes
write_at offset bytes content =
    take offset content
    ++ (replicate (offset - length content) 0 ++ (bytes ++ drop (offset + length bytes) content))

-- The file of a segment, which opening it for a write creates.
abbrev pub opened : Option Bytes → Bytes
opened none = []
opened (some content) = content

module _ (crc : Crc32) (codec : Lz4) where
  -- The bytes to store for a value, and whether they are compressed.
  unfoldable pub compressed : CompressionMode → Bytes → Bytes × Bool
  compressed uncompressed value = (value, false)
  compressed lz4 value =
      if leb compression_threshold (length value)
      then (elim (codec.compress value) [
        | some c ↦ if ltb (length c) (length value) then (c, true) else (value, false)
        | none ↦ (value, false)
      ])
      else (value, false)

  unfoldable pub checksum_data : Bytes → Bytes → ℕ → Bytes
  checksum_data key write_value size =
      le_bytes 4 (length key % 2 ^ 32)
      ++ (le_bytes 8 (length write_value % 2 ^ 64)
          ++ (le_bytes 8 (size % 2 ^ 64) ++ (key ++ write_value)))

  unfoldable pub blob_bytes : CompressionMode → Bytes → Bytes → Bytes
  unfolding compressed checksum_data
  blob_bytes mode key value =
      let (write_value, is_compressed) = compressed mode value in
      let data' = checksum_data key write_value (length value) in
      (if is_compressed then blob_magic_compressed else blob_magic)
      ++ (data' ++ le_bytes 4 (crc.hash data'))

  -- `write_blob_to_segment`: the segments, the location, and the number of bytes written.
  unfoldable pub write_blob_to_segment :
      Blake3 → CompressionMode → ℕ → ℕ → Bytes → Bytes → Segments → Segments × BlobLocation × ℕ
  unfolding blob_bytes compressed write_at
  write_blob_to_segment b3 mode segment offset key value segs =
      let content = opened (lookup segment segs) in
      let (write_value, is_compressed) = compressed mode value in
      (
        insert segment (write_at offset (blob_bytes mode key value) content) segs,
        record {
          shard = segment;
          offset = offset;
          size = length value % 2 ^ 64;
          blake3 = b3.display (b3.digest value);
          expires_at = none;
        },
        4 + 4 + 8 + 8 + length key + length write_value + 4,
      )

  unfoldable pub decoded : Bool → ℕ → Bytes → Reader Bytes
  decoded false orig_len value s = ok (value, s)
  decoded true orig_len value s = elim (codec.decompress value orig_len) [
    | some decompressed ↦ ok (decompressed, s)
    | none ↦ err (corrupted "LZ4 decompression failed")
  ]

  -- What `read_blob` does behind the magic.
  unfoldable pub read_body : Bool → Reader Bytes
  unfolding decoded
  read_body is_compressed = do
    key_len_bytes ← read_exact 4
    val_len_bytes ← read_exact 8
    orig_len_bytes ← read_exact 8
    key_bytes ← read_exact (from_le_bytes key_len_bytes)
    value ← read_exact (from_le_bytes val_len_bytes)
    checksum_bytes ← read_exact 4
    let stored = from_le_bytes checksum_bytes
    let computed =
        crc.hash (key_len_bytes ++ (val_len_bytes ++ (orig_len_bytes ++ (key_bytes ++ value))))
    if not (computed == stored)
        then fail (checksum_mismatch stored computed)
        else do decoded is_compressed (from_le_bytes orig_len_bytes) value

  unfoldable pub after_magic : Bytes → Reader Bytes
  unfolding read_body
  after_magic magic =
      let is_compressed = magic == blob_magic_compressed in
      if not (magic == blob_magic) && not is_compressed
      then fail (corrupted "Invalid blob magic")
      else read_body is_compressed

  -- A segment file that is not there is no error.
  unfoldable pub read_blob : Segments → BlobLocation → Result (Option Bytes)
  unfolding after_magic
  read_blob segs location = elim (lookup location.shard segs) [
    | none ↦ ok none
    | some content ↦
        elim ((do magic ← read_exact 4; after_magic magic) (drop location.offset content)) [
          | ok (value, rest) ↦ ok (some value)
          | err e ↦ err e
        ]
  ]
