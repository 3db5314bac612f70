-- ===== src/Blob/Store.antt =====
-- src/volume/blob.rs: the operations of the store.
use minikv.Prelude.{
  replicate, ◌==◌, nat_eq, ◌&&◌, ℕ, ◌+◌, ◌-◌, ◌*◌, ◌%◌, ◌^◌, Bool, true, false, Option, none, some,
  ltb, leb, length, if◌then◌else◌,
}
use minikv.Errors.{Result, ok, err, internal}
use minikv.Bytes.{Bytes}
use minikv.External.{Crc32, Blake3, Hex, Bloom, Lz4}
use minikv.Wal.{Wal, append_put, append_delete}
use minikv.Index.{Index, BlobLocation}
use minikv.Index
use minikv.Blob.Format.{Segments, CompressionMode, write_blob_to_segment, read_blob}

abbrev pub segment_size : ℕ
segment_size = 64 * 1024 * 1024

abbrev pub max_segments : ℕ
max_segments = 1000

-- The libraries that the store calls.
pub record Libraries : Type 1 where
  pub crc : Crc32
  pub blake3 : Blake3
  pub hex : Hex
  pub bloom : Bloom
  pub codec : Lz4

module _ (libs : Libraries) where
  pub record BlobStore : Type 0 where
    pub segments : Segments
    pub index : Index
    pub bloom : libs.bloom.Filter
    pub wal : Wal
    pub current_segment : ℕ
    pub current_offset : ℕ
    pub compression : CompressionMode

  -- `hash_bytes`: the digest, through its hexadecimal form.
  unfoldable pub hash_bytes : Bytes → Bytes
  hash_bytes key =
      let hash_vec : Bytes = elim (libs.hex.decode (libs.blake3.display (libs.blake3.digest key))) [
        | some bytes ↦ bytes
        | none ↦ replicate 32 0
      ] in
      if length hash_vec == 32 then hash_vec else replicate 32 0

  unfoldable pub set_compression : CompressionMode → BlobStore → BlobStore
  set_compression mode store = record store { compression = mode }

  -- The next segment once this one is full.
  unfoldable pub advance : BlobStore → BlobStore
  advance store =
      if ltb segment_size store.current_offset
      then record store { current_segment = store.current_segment + 1; current_offset = 0 }
      else store

  unfoldable pub write_blob : Bytes → Bytes → BlobStore → BlobStore × Result BlobLocation
  unfolding advance
  write_blob key value store =
      let next = advance store in
      if ltb segment_size store.current_offset && leb max_segments next.current_segment
      then (next, err (internal "Max segments reached"))
      else (let (segs, location, bytes_written) =
            write_blob_to_segment libs.crc libs.codec libs.blake3 next.compression
              next.current_segment next.current_offset key value next.segments in
          (
            record next { segments = segs; current_offset = location.offset + bytes_written },
            ok location,
          ))

  unfoldable pub expiry : ℕ → Option ℕ → BlobLocation → BlobLocation
  expiry now none location = location
  expiry now (some ttl) location = record location { expires_at = some ((now + ttl) % 2 ^ 64) }

  -- The end of `put_with_ttl`: the location enters the index, an error is passed on.
  unfoldable pub index_blob :
      ℕ → Bytes → Option ℕ → BlobStore × Result BlobLocation → BlobStore × Result (Unit {0})
  unfolding expiry
  index_blob now key ttl_ms (store, ok location) = (
    record store { index = Index.insert_key key (expiry now ttl_ms location) store.index },
    ok tt,
  )
  index_blob now key ttl_ms (store, err e) = (store, err e)

  -- The log and the filter have the key before the segment has the value.
  unfoldable pub put_with_ttl :
      ℕ → Bytes → Bytes → Option ℕ → BlobStore → BlobStore × Result (Unit {0})
  unfolding write_blob hash_bytes index_blob
  put_with_ttl now key value ttl_ms store =
      let logged = record store {
        wal = (append_put libs.crc key value store.wal).1;
        bloom = libs.bloom.set (hash_bytes key) store.bloom;
      } in
      index_blob now key ttl_ms (write_blob key value logged)

  unfoldable pub put : ℕ → Bytes → Bytes → BlobStore → BlobStore × Result (Unit {0})
  unfolding put_with_ttl
  put now key value store = put_with_ttl now key value none store

  unfoldable pub get : ℕ → Bytes → BlobStore → Result (Option Bytes)
  unfolding hash_bytes
  get now key store =
      if libs.bloom.check (hash_bytes key) store.bloom
      then (elim (Index.get_if_valid now key store.index) [
        | some loc ↦ read_blob libs.crc libs.codec store.segments loc
        | none ↦ ok none
      ])
      else ok none

  unfoldable pub delete : Bytes → BlobStore → BlobStore
  delete key store = record store {
    wal = (append_delete libs.crc key store.wal).1;
    index = Index.remove_key key store.index;
  }

  unfoldable pub cleanup_expired : ℕ → BlobStore → BlobStore × ℕ
  cleanup_expired now store =
      let (index, gone) = Index.cleanup_expired now store.index in
      (record store { index = index }, gone)

  unfoldable pub get_ttl : ℕ → Bytes → BlobStore → Option ℕ
  get_ttl now key store = elim (Index.get key store.index) [
    | none ↦ none
    | some loc ↦ elim loc.expires_at [
      | none ↦ none
      | some expires_at ↦ if ltb now expires_at then some (expires_at - now) else none
    ]
  ]

  unfoldable pub exists : ℕ → Bytes → BlobStore → Bool
  exists now key store = elim (Index.get_if_valid now key store.index) [
    | none ↦ false
    | some loc ↦ true
  ]
