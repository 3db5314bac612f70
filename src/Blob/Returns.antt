-- ===== src/Blob/Returns.antt =====
-- src/volume/blob.rs: a put and a delete of a key, and the opening of the volume behind them.
use minikv.Prelude.{
  length-append, All-append, zero, suc, drop-drop, take-append, drop-append, ℕ, ◌+◌, ◌-◌, ◌^◌, ◌<◌,
  ◌≤◌, ◌≡◌, refl, sym, ap, ◌∙◌, arith, Bool, true, Option, none, some, List, [], ◌∷◌, ◌++◌, length,
  All, append-nil, append_assoc, nat_eq, list_eq, take, drop, inl,
}
use minikv.Errors.{ok}
use minikv.Bytes.{Bytes, IsU32, IsU64}
use minikv.HashMap.{lookup, insert}
use minikv.Index.{BlobLocation, get_if_valid, is_expired, has_expired}
use minikv.Disk.{stream}
use minikv.Wal.{
  Wal, WalEntry, WalSyncPolicy, put as put_op, delete as delete_op, append_put, append_delete,
}
use minikv.Wal.Format.{FitsOp}
use minikv.Wal.Log.{IsLogOf, append_put-IsLogOf, append-next_sequence, append_delete-IsLogOf}
use minikv.Blob.Format.{Segments, write_at, compressed, write_blob_to_segment, read_blob, opened}
use minikv.Blob.RoundTrip.{unpacked, blob_bytes-record_of, read_blob-record_of}
use minikv.Blob.Store.{
  Libraries, BlobStore, put_with_ttl, delete, get, advance, segment_size, hash_bytes,
}
use minikv.Blob.Keys.{written, logged, put_with_ttl_fits, get_found}
use minikv.Blob.Scanned.{Stored, IsScannable, bytes_of, blobs_bytes}
use minikv.Blob.Regions.{length-record_of}
use minikv.Blob.Found.{
  SegmentFile, IsScannableFile, segments_of, last_in, location_of, last_blob-last,
}
use minikv.Blob.Open.{VolumeFiles, open_store}
use minikv.Blob.Reopened.{open_store-unsaved}

module _ (libs : Libraries) where
  -- The files that a store without a snapshot leaves behind when it is closed, its log flushed.
  abbrev pub left_files : BlobStore libs → VolumeFiles
  left_files store = record {
    snapshot = none;
    bloom_file = none;
    wal_file = some (stream store.wal.writer);
    segments = store.segments;
  }

  abbrev pub first_segment : List Stored → SegmentFile
  first_segment bs = record { number = 0; blobs = bs; tail = [] }

  -- A store that is still in its first segment, with these blobs in it.
  pub record IsFirst (bs : List Stored) (store : BlobStore libs) : Type 0 where
    pub content : store.segments ≡ segments_of libs (first_segment bs ∷ [])
    pub segment : store.current_segment ≡ 0
    pub offset : store.current_offset ≡ length (blobs_bytes libs.crc libs.codec bs)
    pub room : store.current_offset ≤ segment_size
    pub scannable : All IsScannable bs

  advance_stays :
      (store : BlobStore libs) → store.current_offset ≤ segment_size → advance libs store ≡ store
  unfolding advance
  advance_stays store h = ground arith

  blobs_bytes-append :
      (bs : List Stored) (b : Stored)
      → blobs_bytes libs.crc libs.codec (bs ++ b ∷ [])
        ≡ blobs_bytes libs.crc libs.codec bs ++ bytes_of libs.crc libs.codec b
  blobs_bytes-append [] b = append-nil _
  blobs_bytes-append (c ∷ bs) b =
      ap (λ l. bytes_of libs.crc libs.codec c ++ l) (blobs_bytes-append bs b)
      ∙ sym (append_assoc (bytes_of libs.crc libs.codec c) _ _)

  drop-nil : (n : ℕ) → drop {A = ℕ} n [] ≡ []
  drop-nil zero = refl
  drop-nil (suc n) = refl

  write_at_end :
      (bytes content : Bytes) → write_at (length content) bytes content ≡ content ++ bytes
  unfolding write_at
  write_at_end bytes content =
      let front : take (length content) content ≡ content =
        ap (take (length content)) (sym (append-nil content)) ∙ take-append content [] in
      let gap : length content - length content ≡ 0 = omega arith in
      let behind : drop (length content + length bytes) content ≡ [] =
        drop-drop (length bytes) (length content) content
        ∙ ap (drop (length bytes))
            (ap (drop (length content)) (sym (append-nil content)) ∙ drop-append content [])
        ∙ drop-nil (length bytes) in
      rw (front, gap, behind) (ap (λ l. content ++ l) (append-nil bytes))

  grown :
      (bs : List Stored) (b : Stored) (bytes : Bytes) (segment offset : ℕ) (segs : Segments)
      → segs ≡ segments_of libs (first_segment bs ∷ [])
      → segment ≡ 0
      → offset ≡ length (blobs_bytes libs.crc libs.codec bs)
      → bytes ≡ bytes_of libs.crc libs.codec b
      → insert segment (write_at offset bytes (opened (lookup segment segs))) segs
        ≡ segments_of libs (first_segment (bs ++ b ∷ []) ∷ [])
  unfolding insert lookup
  grown bs b bytes segment offset segs content zero_segment at_end same =
      rw (content, zero_segment, at_end, same)
        (ap (λ c. (0, c) ∷ [])
          (ap
              (write_at (length (blobs_bytes libs.crc libs.codec bs))
                (bytes_of libs.crc libs.codec b))
              (append-nil _)
            ∙ write_at_end (bytes_of libs.crc libs.codec b) (blobs_bytes libs.crc libs.codec bs)
            ∙ sym (blobs_bytes-append bs b)
            ∙ sym (append-nil _)))

  put_segments :
      (now : ℕ) (key value stored : Bytes) (flag : Bool) (ttl_ms : Option ℕ) (bs : List Stored)
      (store : BlobStore libs)
      → IsFirst bs store
      → compressed libs.crc libs.codec store.compression value ≡ (stored, flag)
      → let b : Stored = record { flag = flag; key = key; stored = stored; size = length value } in
        let after = (put_with_ttl libs now key value ttl_ms store).0 in
        (after.segments ≡ segments_of libs (first_segment (bs ++ b ∷ []) ∷ []))
        × (after.wal ≡ (append_put libs.crc key value store.wal).1)
  unfolding logged written write_blob_to_segment
  put_segments now key value stored flag ttl_ms bs store first how =
      rw
        (
          put_with_ttl_fits libs now key value ttl_ms store (inl first.room),
          advance_stays (logged libs key value store) first.room,
        )
        (
          grown bs (record { flag = flag; key = key; stored = stored; size = length value }) _ _ _ _
              first.content first.segment first.offset
              (blob_bytes-record_of libs.crc libs.codec store.compression key value stored flag
                how),
          refl,
        )

  -- The log behind a put and a delete.
  abbrev both : List WalEntry → Wal → Bytes → Bytes → List WalEntry
  both es w key value =
      (es ++ record { sequence = w.next_sequence; op = put_op key value } ∷ [])
      ++ record { sequence = (append_put libs.crc key value w).1.next_sequence; op = delete_op key }
        ∷ []

  room_left :
      (n : ℕ) (es : List WalEntry)
      → n < 2 ^ 64 - 1
      → All (λ e. e.sequence < n) es
      → All (λ e. e.sequence + 1 < 2 ^ 64 - 1) es
  room_left n [] h below = tt
  room_left n (e ∷ es) h (first, rest) = (omega arith, room_left n es h rest)

  both-IsLogOf :
      (es : List WalEntry) (w : Wal) (key value : Bytes)
      → IsLogOf libs.crc es w
      → FitsOp (put_op key value)
      → w.next_sequence + 4 < 2 ^ 64
      → IsLogOf libs.crc
          (both es w key value)
          (append_delete libs.crc key (append_put libs.crc key value w).1).1
        × All (λ e. e.sequence + 1 < 2 ^ 64 - 1) (both es w key value)
  both-IsLogOf es w key value log (utf8, short, small) room =
      let after_put = (append-next_sequence libs.crc w key value).0 in
      let after_delete =
        (append-next_sequence libs.crc (append_put libs.crc key value w).1 key value).1 in
      let logged_put =
        (append_put-IsLogOf libs.crc es w key value log (utf8, short, small) (omega arith)).1 in
      let logged_delete =
        (append_delete-IsLogOf libs.crc _ _ key logged_put (utf8, short)
          (omega (arith, after_put))).1 in
      (logged_delete, room_left _ _ (omega (arith, after_put, after_delete)) logged_delete.below)

  -- Where the value lies, and that it is read from there.
  read_last :
      (segs : Segments) (bs : List Stored) (b : Stored) (value : Bytes)
      → IsU32 (length b.key)
      → length b.stored < 2 ^ 63
      → IsU64 b.size
      → unpacked libs.crc libs.codec b.flag b.size b.stored ≡ some value
      → segs ≡ segments_of libs (first_segment (bs ++ b ∷ []) ∷ [])
      → read_blob libs.crc libs.codec segs
          (location_of libs 0 (length (blobs_bytes libs.crc libs.codec bs)) b)
        ≡ ok (some value)
  unfolding lookup
  read_last segs bs b value k v size back same =
      let crc = libs.crc in
      let codec = libs.codec in
      let content : blobs_bytes crc codec (bs ++ b ∷ []) ++ []
          ≡ blobs_bytes crc codec bs ++ bytes_of crc codec b =
        append-nil _ ∙ blobs_bytes-append bs b in
      read_blob-record_of crc codec segs _ _ b.flag b.key b.stored value [] b.size k (omega arith)
        size (rw same (ap some content))
        (drop-append (blobs_bytes crc codec bs) (bytes_of crc codec b) ∙ sym (append-nil _)) back

  -- A key with a location that never expires.
  get_there :
      (later : ℕ) (key value : Bytes) (store : BlobStore libs) (loc : BlobLocation)
      → libs.bloom.check (hash_bytes libs key) store.bloom ≡ true
      → lookup key store.index.map ≡ some loc
      → loc.expires_at ≡ none
      → read_blob libs.crc libs.codec store.segments loc ≡ ok (some value)
      → get libs later key store ≡ ok (some value)
  unfolding get_if_valid is_expired has_expired
  get_there later key value store loc in_filter held forever read =
      get_found libs later key store loc in_filter (ground (arith, held, forever)) ∙ read

  one_file :
      (bs : List Stored) (b : Stored)
      → All IsScannable bs
      → IsScannable b
      → length (blobs_bytes libs.crc libs.codec bs) + 28 + length b.key + length b.stored < 2 ^ 63
      → IsScannableFile libs (first_segment (bs ++ b ∷ []))
  one_file bs b hs h fits = record {
    blobs_scannable = All-append IsScannable bs (b ∷ []) hs (h, tt);
    ends = refl;
    fits =
        rw (append-nil, blobs_bytes-append)
          (omega (
            arith,
            length-append (blobs_bytes libs.crc libs.codec bs) (bytes_of libs.crc libs.codec b),
            length-record_of libs.crc libs.codec b.flag b.key b.stored b.size,
          ));
  }

  -- Until the first snapshot a delete does not survive the closing of a volume. In a store still in its
  -- first segment, whose log is of these entries with room for four more numbers, a value is put, with
  -- a time-to-live or without, and the key deleted; the key and the value have sizes that the formats
  -- hold, and what is stored stands for the value. When the store is closed and opened again, reading
  -- the key gives the value, at any time, also when its time-to-live has run out.
  pub deleted_key_returns :
      (now later : ℕ) (key value stored : Bytes) (flag : Bool) (ttl_ms : Option ℕ)
      (bs : List Stored) (es : List WalEntry) (store : BlobStore libs) (policy : WalSyncPolicy)
      → IsFirst bs store
      → IsLogOf libs.crc es store.wal
      → store.wal.next_sequence + 4 < 2 ^ 64
      → FitsOp (put_op key value)
      → length stored < 2 ^ 63
      → compressed libs.crc libs.codec store.compression value ≡ (stored, flag)
      → unpacked libs.crc libs.codec flag (length value) stored ≡ some value
      → length (blobs_bytes libs.crc libs.codec bs) + 28 + length key + length stored < 2 ^ 63
      → (reopened : BlobStore libs) × (open_store libs policy
            (left_files (delete libs key (put_with_ttl libs now key value ttl_ms store).0))
          ≡ some (ok reopened))
        × (get libs later key reopened ≡ ok (some value))
  unfolding delete
  deleted_key_returns now later key value stored flag ttl_ms bs es store policy first log room fits
        small how back whole =
      let b : Stored = record { flag = flag; key = key; stored = stored; size = length value } in
      let (segs, wal) = put_segments now key value stored flag ttl_ms bs store first how in
      let scannable : IsScannable b = record {
        key_utf8 = fits.0;
        key_fits = fits.1;
        stored_fits = small;
        size_fits = omega (arith, fits.2);
      } in
      let (log2, room2) = both-IsLogOf es store.wal key value log fits room in
      let (reopened, opens, files, found, kept) =
        open_store-unsaved libs policy _ none (first_segment (bs ++ b ∷ []) ∷ []) log2.storable
          room2 (one_file bs b first.scannable scannable whole, tt) in
      let last : last_in libs (first_segment (bs ++ b ∷ []) ∷ []) key none
          ≡ some (location_of libs 0 (length (blobs_bytes libs.crc libs.codec bs)) b) =
        last_blob-last libs 0 0 bs b none ∙ ap (λ o. some (location_of libs 0 o b)) (omega arith) in
      let flushed = ap (λ w. stream (append_delete libs.crc key w).1.writer) wal ∙ log2.content in
      (
        reopened,
        ap (open_store libs policy) (λ i. record {
          snapshot = none;
          bloom_file = none;
          wal_file = some (flushed i);
          segments = segs i;
        })
            ∙ opens,
        get_there later key value reopened _ (rw last at (kept key)) (found key ∙ last) refl (
            read_last reopened.segments bs b value fits.1 small (omega (arith, fits.2)) back files),
      )
