-- ===== src/Blob/Writes.antt =====
-- What `write_blob` of src/volume/blob.rs adds to the segments, and what it leaves there.
use minikv.Prelude.{
  ◌+◌, ◌≤◌, ◌<◌, ◌≡◌, refl, ap, ◌∙◌, arith, false, ◌⊎◌, inr, some, ◌++◌, length, drop, nat_eq,
}
use minikv.Bytes.{Bytes, IsU32, IsU64}
use minikv.External.{Crc32, Lz4}
use minikv.HashMap.{lookup}
use minikv.HashMap.Laws.{lookup-insert_self}
use minikv.Index.{BlobLocation}
use minikv.Blob.Format.{
  CompressionMode, uncompressed, lz4, compressed, write_at, opened, blob_bytes,
  write_blob_to_segment,
}
use minikv.Blob.RoundTrip.{unpacked, blob_bytes-record_of, drop-write_at}
use minikv.Blob.Regions.{Holds, Holds-later, Holds-write_at, length-record_of}
use minikv.Blob.Store.{Libraries, BlobStore, advance}
use minikv.Blob.Keys.{written}

-- The format can hold the key and the value, and what is stored stands for the value.
pub record Storable (crc : Crc32) (codec : Lz4) (mode : CompressionMode) (key value : Bytes)
    : Type 0 where
  pub key_fits : IsU32 (length key)
  pub value_fits : IsU64 (length value)
  pub stored_fits : IsU64 (length (compressed crc codec mode value).0)
  pub back :
      unpacked crc codec
        (compressed crc codec mode value).1
        (length value)
        (compressed crc codec mode value).0
      ≡ some value

-- The format can hold the key and the value, and the value is stored as it is: without compression every
-- value is, and with it a value that is short or that does not get smaller.
pub record IsPlain (crc : Crc32) (codec : Lz4) (mode : CompressionMode) (key value : Bytes)
    : Type 0 where
  pub key_fits : IsU32 (length key)
  pub value_fits : IsU64 (length value)
  pub not_compressed : (compressed crc codec mode value).1 ≡ false

compressed-plain :
    (crc : Crc32) (codec : Lz4) (mode : CompressionMode) (value : Bytes)
    → (compressed crc codec mode value).1 ≡ false
    → compressed crc codec mode value ≡ (value, false)
unfolding compressed
compressed-plain crc codec uncompressed value h = refl
compressed-plain crc codec lz4 value h = ground (arith, h)

pub IsPlain-Storable :
    (crc : Crc32) (codec : Lz4) (mode : CompressionMode) (key value : Bytes)
    → IsPlain crc codec mode key value
    → Storable crc codec mode key value
IsPlain-Storable crc codec mode key value h =
    let plain = compressed-plain crc codec mode value h.not_compressed in
    record {
      key_fits = h.key_fits;
      value_fits = h.value_fits;
      stored_fits = rw plain h.value_fits;
      back = rw plain refl;
    }

length-blob_bytes :
    (crc : Crc32) (codec : Lz4) (mode : CompressionMode) (key value : Bytes)
    → length (blob_bytes crc codec mode key value)
      ≡ 4 + 4 + 8 + 8 + length key + length (compressed crc codec mode value).0 + 4
length-blob_bytes crc codec mode key value =
    ap length (
      blob_bytes-record_of crc codec mode key value (compressed crc codec mode value).0
        (compressed crc codec mode value).1 refl)
    ∙ length-record_of crc codec _ key _ (length value)

module _ (libs : Libraries) where
  pub advance_lem :
      (store : BlobStore libs)
      → ((store.current_segment < (advance libs store).current_segment)
          ⊎ ((store.current_segment ≡ (advance libs store).current_segment)
              × (store.current_offset ≤ (advance libs store).current_offset)))
        × ((advance libs store).segments ≡ store.segments)
        × ((advance libs store).index ≡ store.index)
        × ((advance libs store).bloom ≡ store.bloom)
        × ((advance libs store).compression ≡ store.compression)
  unfolding advance
  advance_lem store = ground arith

  -- What was held is held behind the write.
  pub Holds-written_old :
      (key value : Bytes) (store : BlobStore libs) (loc : BlobLocation) (v : Bytes)
      → Holds libs.crc libs.codec store.segments store.current_segment store.current_offset loc v
      → Holds libs.crc libs.codec
          (written libs key value store).0
          (advance libs store).current_segment
          ((written libs key value store).1.offset + (written libs key value store).2)
          loc
          v
  unfolding written write_blob_to_segment
  Holds-written_old key value store loc v h =
      let next = advance libs store in
      let (le, segs, ix, bl, mode) = advance_lem store in
      let moved =
        Holds-later libs.crc libs.codec next.segments store.current_segment store.current_offset
          next.current_segment next.current_offset loc v le (rw segs h) in
      Holds-later libs.crc libs.codec _ _ _ _ _ loc v
        (inr
          (refl, omega (arith, length-blob_bytes libs.crc libs.codec next.compression key value)))
        (Holds-write_at libs.crc libs.codec next.segments next.current_segment next.current_offset
          (blob_bytes libs.crc libs.codec next.compression key value) loc v moved)

  -- What was written is held.
  pub Holds-written_new :
      (key value : Bytes) (store : BlobStore libs)
      → Storable libs.crc libs.codec (advance libs store).compression key value
      → Holds libs.crc libs.codec
          (written libs key value store).0
          (advance libs store).current_segment
          ((written libs key value store).1.offset + (written libs key value store).2)
          (written libs key value store).1
          value
  unfolding written write_blob_to_segment
  Holds-written_new key value store h =
      let next = advance libs store in
      let content = opened (lookup next.current_segment next.segments) in
      let bytes = blob_bytes libs.crc libs.codec next.compression key value in
      let (stored, flag) = compressed libs.crc libs.codec next.compression value in
      record {
        flag = flag;
        key = key;
        stored = stored;
        size = length value;
        content = write_at next.current_offset bytes content;
        rest = drop (next.current_offset + length bytes) content;
        key_fits = h.key_fits;
        stored_fits = h.stored_fits;
        size_fits = h.value_fits;
        found =
            lookup-insert_self next.current_segment (write_at next.current_offset bytes content)
              next.segments;
        at =
            drop-write_at next.current_offset bytes content
            ∙ ap (λ b. b ++ drop (next.current_offset + length bytes) content)
                (blob_bytes-record_of libs.crc libs.codec next.compression key value stored flag
                  refl);
        back = h.back;
        before = inr (
          refl,
          omega (arith, length-record_of libs.crc libs.codec flag key stored (length value)),
        );
      }
