-- ===== src/Blob/Keys.antt =====
-- What src/volume/blob.rs promises a client of one key: reads after writes and after deletes.
use minikv.Prelude.{
  leb, ◌&&◌, ltb, ◌⊎◌, ℕ, ◌+◌, ◌%◌, ◌^◌, ◌≤◌, ◌<◌, ◌≡◌, refl, ap, ◌∙◌, arith, Bool, true, false,
  Option, some, none, length, nat_eq, list_eq, if◌then◌else◌,
}
use minikv.Bytes.{Bytes, IsU32, IsU64}
use minikv.Errors.{ok}
use minikv.HashMap.Laws.{lookup-insert_self, lookup-remove_self}
use minikv.Index.{BlobLocation, Index, get_if_valid, is_expired, has_expired}
use minikv.Index
use minikv.Wal.{append_put}
use minikv.Blob.Format.{Segments, write_blob_to_segment, read_blob, compressed}
use minikv.Blob.RoundTrip.{unpacked, read_blob-write_blob_to_segment}
use minikv.Blob.Store.{
  Libraries, BlobStore, hash_bytes, advance, write_blob, expiry, index_blob, put_with_ttl, get,
  delete, segment_size, max_segments,
}

module _ (libs : Libraries) where
  if_same {ℓ} : {A : Type ℓ} {a : A} (b : Bool) → (if b then a else a) ≡ a
  if_same true = refl
  if_same false = refl

  pub get_missing :
      (now : ℕ) (key : Bytes) (store : BlobStore libs)
      → get_if_valid now key store.index ≡ none
      → get libs now key store ≡ ok none
  unfolding get
  get_missing now key store h = rw (h, get) (if_same _)

  pub get_found :
      (now : ℕ) (key : Bytes) (store : BlobStore libs) (loc : BlobLocation)
      → libs.bloom.check (hash_bytes libs key) store.bloom ≡ true
      → get_if_valid now key store.index ≡ some loc
      → get libs now key store ≡ read_blob libs.crc libs.codec store.segments loc
  unfolding get
  get_found now key store loc c h = rw (c, h, get) refl

  get_if_valid-remove_key :
      (now : ℕ) (key : Bytes) (ix : Index) → get_if_valid now key (Index.remove_key key ix) ≡ none
  unfolding get_if_valid is_expired
  get_if_valid-remove_key now key ix = ground (arith, lookup-remove_self key ix.map)

  get_if_valid-insert_key :
      (now : ℕ) (key : Bytes) (loc : BlobLocation) (ix : Index)
      → has_expired now loc ≡ false
      → get_if_valid now key (Index.insert_key key loc ix) ≡ some loc
  unfolding get_if_valid is_expired
  get_if_valid-insert_key now key loc ix live =
      ground (arith, live, lookup-insert_self key loc ix.map)

  -- A deleted key is not found, at any time.
  pub get-delete :
      (now : ℕ) (key : Bytes) (store : BlobStore libs)
      → get libs now key (delete libs key store) ≡ ok none
  unfolding delete
  get-delete now key store =
      get_missing now key (delete libs key store) (get_if_valid-remove_key now key store.index)

  -- There is room for another blob: the segment is not full, or it is not the last one.
  abbrev pub HasRoom : BlobStore libs → Type 0
  HasRoom store = (store.current_offset ≤ segment_size) ⊎ (store.current_segment + 1 < max_segments)

  -- A time at which a time-to-live given at `now` has not run out.
  abbrev pub IsLive : ℕ → Option ℕ → ℕ → Type 0
  IsLive now none later = Unit {0}
  IsLive now (some ttl) later = later ≤ (now + ttl) % 2 ^ 64

  pub expiry-live :
      (now later : ℕ) (ttl_ms : Option ℕ) (loc : BlobLocation)
      → loc.expires_at ≡ none
      → IsLive now ttl_ms later
      → has_expired later (expiry libs now ttl_ms loc) ≡ false
  unfolding expiry has_expired
  expiry-live now later ttl_ms loc none_yet live = ground arith

  HasRoom-write_blob :
      (store : BlobStore libs)
      → HasRoom store
      → (ltb segment_size store.current_offset
          && leb max_segments (advance libs store).current_segment)
        ≡ false
  unfolding advance
  HasRoom-write_blob store room = ground arith

  -- What `write_blob_to_segment` makes of the store that has moved on to the next segment.
  unfoldable pub written : Bytes → Bytes → BlobStore libs → Segments × BlobLocation × ℕ
  written key value store =
      let next = advance libs store in
      write_blob_to_segment libs.crc libs.codec libs.blake3 next.compression next.current_segment
        next.current_offset key value next.segments

  write_blob_fits :
      (key value : Bytes) (store : BlobStore libs)
      → HasRoom store
      → write_blob libs key value store ≡ (
        record (advance libs store) {
          segments = (written key value store).0;
          current_offset = (written key value store).1.offset + (written key value store).2;
        },
        ok (written key value store).1,
      )
  unfolding write_blob written
  write_blob_fits key value store room = rw (HasRoom-write_blob store room) refl

  unfoldable pub logged : Bytes → Bytes → BlobStore libs → BlobStore libs
  logged key value store = record store {
    wal = (append_put libs.crc key value store.wal).1;
    bloom = libs.bloom.set (hash_bytes libs key) store.bloom;
  }

  HasRoom-logged :
      (key value : Bytes) (store : BlobStore libs)
      → HasRoom store
      → HasRoom (logged key value store)
  unfolding logged
  HasRoom-logged key value store room = room

  pub put_with_ttl_fits :
      (now : ℕ) (key value : Bytes) (ttl_ms : Option ℕ) (store : BlobStore libs)
      → HasRoom store
      → let next = advance libs (logged key value store) in
        let (segs, location, size) = written key value (logged key value store) in
        put_with_ttl libs now key value ttl_ms store ≡ (
          record next {
            segments = segs;
            current_offset = location.offset + size;
            index = Index.insert_key key (expiry libs now ttl_ms location) next.index;
          },
          ok tt,
        )
  unfolding put_with_ttl logged index_blob
  put_with_ttl_fits now key value ttl_ms store room =
      ap (index_blob libs now key ttl_ms)
        (write_blob_fits key value (logged key value store) (HasRoom-logged key value store room))

  pub advance-keeps :
      (store : BlobStore libs)
      → ((advance libs store).compression ≡ store.compression)
        × ((advance libs store).bloom ≡ store.bloom)
  unfolding advance
  advance-keeps store = ground arith

  read_blob-expiry :
      (now : ℕ) (ttl_ms : Option ℕ) (segs : Segments) (loc : BlobLocation)
      → read_blob libs.crc libs.codec segs (expiry libs now ttl_ms loc)
        ≡ read_blob libs.crc libs.codec segs loc
  unfolding read_blob expiry
  read_blob-expiry now none segs loc = refl
  read_blob-expiry now (some ttl) segs loc = refl

  read_blob-written :
      (key value stored read : Bytes) (flag : Bool) (store : BlobStore libs)
      → IsU32 (length key)
      → IsU64 (length value)
      → IsU64 (length stored)
      → compressed libs.crc libs.codec store.compression value ≡ (stored, flag)
      → unpacked libs.crc libs.codec flag (length value) stored ≡ some read
      → read_blob libs.crc libs.codec (written key value store).0 (written key value store).1
        ≡ ok (some read)
  unfolding written
  read_blob-written key value stored read flag store k v w how back =
      let next = advance libs store in
      read_blob-write_blob_to_segment libs.crc libs.codec libs.blake3 next.compression
        next.current_segment next.current_offset key value next.segments stored read flag k v w
        (ap (λ c. compressed libs.crc libs.codec c value) (advance-keeps store).0 ∙ how) back

  pub written_no_expiry :
      (key value : Bytes) (store : BlobStore libs) → (written key value store).1.expires_at ≡ none
  unfolding written write_blob_to_segment
  written_no_expiry key value store = refl

  bloom-logged :
      (key value : Bytes) (store : BlobStore libs)
      → libs.bloom.check (hash_bytes libs key) (advance libs (logged key value store)).bloom ≡ true
  unfolding logged
  bloom-logged key value store =
      rw (advance-keeps (logged key value store)).1
        (libs.bloom.check-set (hash_bytes libs key) store.bloom)

  -- A value that is put, with or without a time-to-live, is what reading the key gives until it
  -- expires, if the store has room, the key and the sizes fit their fields, and what is stored
  -- stands for it: the value as it is, or, compressed, what the library decompresses it to.
  pub get-put_with_ttl :
      (now later : ℕ) (key value stored read : Bytes) (flag : Bool) (ttl_ms : Option ℕ)
      (store : BlobStore libs)
      → HasRoom store
      → IsU32 (length key)
      → IsU64 (length value)
      → IsU64 (length stored)
      → compressed libs.crc libs.codec store.compression value ≡ (stored, flag)
      → unpacked libs.crc libs.codec flag (length value) stored ≡ some read
      → IsLive now ttl_ms later
      → let (after, result) = put_with_ttl libs now key value ttl_ms store in
        (result ≡ ok tt) × (get libs later key after ≡ ok (some read))
  unfolding logged
  get-put_with_ttl now later key value stored read flag ttl_ms store room k v w how back live =
      let before = logged key value store in
      let location = (written key value before).1 in
      rw (put_with_ttl_fits now key value ttl_ms store room) (
        refl,
        get_found later key _ (expiry libs now ttl_ms location) (bloom-logged key value store) (
              get_if_valid-insert_key later key _ _
                (expiry-live now later ttl_ms location (written_no_expiry key value before) live))
            ∙ read_blob-expiry now ttl_ms _ location
            ∙ read_blob-written key value stored read flag before k v w how back,
      )
