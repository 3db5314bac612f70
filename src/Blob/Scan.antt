-- ===== src/Blob/Scan.antt =====
-- src/volume/blob.rs: the scan of the segment files, which finds the blobs again, and the place where
-- the next blob goes. The files come in the order in which the directories list them.
use minikv.Prelude.{
  ℕ, zero, suc, ◌+◌, ◌-◌, ◌%◌, ◌^◌, Option, none, some, [], ◌∷◌, not, ◌&&◌, ◌||◌, ltb, leb, ◌==◌,
  nat_eq, list_eq, length, drop, if◌then◌else◌,
}
use minikv.Errors.{Result, ok, err, io, other_io}
use minikv.Bytes.{Bytes, Reader, pure, ◌>>=◌, read_exact, from_le_bytes, from_utf8_lossy}
use minikv.Index.{Index}
use minikv.Index
use minikv.Blob.Format.{Segments, blob_magic, blob_magic_compressed}
use minikv.Blob.Store.{Libraries, hash_bytes}

-- What is read of a blob before its value is passed over.
pub record Header : Type 0 where
  pub key_len : ℕ
  pub val_len : ℕ
  pub orig_len : ℕ
  pub key_bytes : Bytes

unfoldable pub read_header : Reader Header
read_header = do
  key_len_bytes ← read_exact 4
  val_len_bytes ← read_exact 8
  orig_len_bytes ← read_exact 8
  key_bytes ← read_exact (from_le_bytes key_len_bytes)
  pure (record {
    key_len = from_le_bytes key_len_bytes;
    val_len = from_le_bytes val_len_bytes;
    orig_len = from_le_bytes orig_len_bytes;
    key_bytes = key_bytes;
  })

-- `seek(SeekFrom::Current(n as i64))`: a number of 2^63 and above is a negative one, and a place that
-- is negative or beyond `i64` an error. A place behind the end of the file is none.
unfoldable pub seek_current : ℕ → ℕ → Option ℕ
seek_current n pos =
    if ltb n (2 ^ 63)
    then if ltb (pos + n) (2 ^ 63) then some (pos + n) else none
    else if leb (2 ^ 64) (pos + n)
    then some (pos + n - 2 ^ 64)
    else none

-- The sum behind the value, of which nothing is checked.
unfoldable pub pass_value : Bytes → Header → Option ℕ → Result (Header × ℕ)
pass_value content header none = err (io other_io)
pass_value content header (some pos) = elim (read_exact 4 (drop pos content)) [
  | ok (checksum_bytes, rest) ↦ ok (header, pos + 4)
  | err e ↦ err e
]

-- One round of the loop behind the magic: what it has read, and where it stands then.
unfoldable pub scan_blob : Bytes → ℕ → Result (Header × ℕ)
unfolding read_header seek_current pass_value
scan_blob content pos = elim (read_header (drop pos content)) [
  | ok (header, rest) ↦
      pass_value content header (seek_current header.val_len (pos + 20 + header.key_len))
  | err e ↦ err e
]

module _ (libs : Libraries) where
  -- A blob that was found enters the index and the filter. The sum in its location is that of the key.
  unfoldable pub add_scanned :
      ℕ → ℕ → Bytes → ℕ → Index × libs.bloom.Filter → Index × libs.bloom.Filter
  unfolding hash_bytes
  add_scanned segment offset key size (index, bloom) = (
    Index.insert_key key
        (record {
          shard = segment;
          offset = offset;
          size = size;
          blake3 = libs.blake3.display (libs.blake3.digest key);
          expires_at = none;
        })
        index,
    libs.bloom.set (hash_bytes libs key) bloom,
  )

  -- The loop of `scan_segment`, on the rounds that it has left: the first bytes that are no magic end
  -- it, and every later short read is an error.
  unfoldable pub scan_loop :
      ℕ
      → ℕ
      → Bytes
      → ℕ
      → ℕ
      → Index × libs.bloom.Filter
      → Option (Result (Index × libs.bloom.Filter))
  unfolding scan_blob add_scanned
  scan_loop zero segment content pos offset state = none
  scan_loop (suc fuel) segment content pos offset state = elim (read_exact 4 (drop pos content)) [
    | err e ↦ some (ok state)
    | ok (magic, rest) ↦
        if not (magic == blob_magic) && not (magic == blob_magic_compressed)
        then some (ok state)
        else (elim (scan_blob content (pos + 4)) [
          | err e ↦ some (err e)
          | ok (header, next) ↦
              scan_loop fuel segment content next
                ((offset + (4 + 4 + 8 + 8 + header.key_len + header.val_len + 4)) % 2 ^ 64)
                (add_scanned segment offset (from_utf8_lossy header.key_bytes) header.orig_len
                  state)
        ])
  ]

  unfoldable pub scan_segment :
      ℕ → Bytes → Index × libs.bloom.Filter → Option (Result (Index × libs.bloom.Filter))
  unfolding scan_loop
  scan_segment segment content state = scan_loop (length content + 1) segment content 0 0 state

  unfoldable pub rebuild_index_from_segments :
      Segments → Index × libs.bloom.Filter → Option (Result (Index × libs.bloom.Filter))
  unfolding scan_segment
  rebuild_index_from_segments [] state = some (ok state)
  rebuild_index_from_segments ((segment, content) ∷ files) state =
      elim (scan_segment segment content state) [
        | none ↦ none
        | some (err e) ↦ some (err e)
        | some (ok next) ↦ rebuild_index_from_segments files next
      ]

-- `find_current_position`, from the highest segment and its size among the files before.
unfoldable pub position_from : ℕ × ℕ → Segments → ℕ × ℕ
position_from best [] = best
position_from (max_segment, max_offset) ((segment, content) ∷ files) =
    position_from
      (if ltb max_segment segment || ((segment == max_segment) && ltb max_offset (length content))
        then (segment, length content)
        else (max_segment, max_offset))
      files

unfoldable pub find_current_position : Segments → ℕ × ℕ
unfolding position_from
find_current_position files = position_from (0, 0) files
