-- ===== src/Blob/Regions.antt =====
-- Where the blobs of src/volume/blob.rs lie in their segments, and that a later write leaves them.
use minikv.Prelude.{
  true, false, ℕ, ◌+◌, ◌-◌, ◌≤◌, ◌<◌, ◌≡◌, sym, ap, ◌∙◌, arith, ◌⊎◌, inl, inr, Bool, some, ◌++◌,
  append_assoc, length, take, drop, replicate, length-take, length-drop, length-append,
  drop-append_within, take-append_beyond, drop-take, nat_eq,
}
use minikv.Bytes.{length-le_bytes, Bytes, IsU32, IsU64}
use minikv.Errors.{ok}
use minikv.External.{Crc32, Lz4}
use minikv.HashMap.{lookup, insert}
use minikv.HashMap.Laws.{lookup-insert, lookup-insert_self}
use minikv.Index.{BlobLocation}
use minikv.Blob.Format.{checksum_data, Segments, write_at, opened, read_blob}
use minikv.Blob.RoundTrip.{record_of, unpacked, read_blob-record_of}

-- A write behind the end of some bytes leaves them where they are.
drop-write_at_before :
    (start offset : ℕ) (bytes content front rest : Bytes)
    → drop start content ≡ front ++ rest
    → start + length front ≤ offset
    → 0 < length front
    → (after : Bytes) × (drop start (write_at offset bytes content) ≡ front ++ after)
unfolding write_at
drop-write_at_before start offset bytes content front rest at ends some_bytes =
    let tail =
      replicate (offset - length content) 0 ++ (bytes ++ drop (offset + length bytes) content) in
    let room = offset - start - length front in
    let size : length content - start ≡ length front + length rest =
      omega (arith, length-drop start content, ap length at, length-append front rest) in
    let cut : take offset content ≡ take (start + (length front + room)) content =
      ap (λ n. take n content) (omega arith) in
    (
      take room rest ++ tail,
      drop-append_within start (take offset content) tail
            (omega (arith, length-take offset content, size))
          ∙ ap (λ l. l ++ tail)
              (ap (drop start) cut
                ∙ drop-take start (length front + room) content
                ∙ ap (take (length front + room)) at
                ∙ take-append_beyond front rest room)
          ∙ append_assoc front (take room rest) tail,
    )

module _ (crc : Crc32) (codec : Lz4) where
  -- A location holds a value: the blob is in its segment, and ends before the next write, which is to
  -- this offset of the segment `current`.
  pub record Holds (segs : Segments) (current offset : ℕ) (loc : BlobLocation) (value : Bytes)
      : Type 0 where
    pub flag : Bool
    pub key : Bytes
    pub stored : Bytes
    pub size : ℕ
    pub content : Bytes
    pub rest : Bytes
    pub key_fits : IsU32 (length key)
    pub stored_fits : IsU64 (length stored)
    pub size_fits : IsU64 size
    pub found : lookup loc.shard segs ≡ some content
    pub at : drop loc.offset content ≡ record_of crc codec flag key stored size ++ rest
    pub back : unpacked crc codec flag size stored ≡ some value
    pub before :
        (loc.shard < current)
        ⊎ ((loc.shard ≡ current)
            × (loc.offset + length (record_of crc codec flag key stored size) ≤ offset))

  pub read_blob-Holds :
      (segs : Segments) (current offset : ℕ) (loc : BlobLocation) (value : Bytes)
      → Holds segs current offset loc value
      → read_blob crc codec segs loc ≡ ok (some value)
  read_blob-Holds segs current offset loc value h =
      read_blob-record_of crc codec segs loc h.content h.flag h.key h.stored value h.rest h.size
        h.key_fits h.stored_fits h.size_fits h.found h.at h.back

  -- The next write may move on.
  pub Holds-later :
      (segs : Segments) (c o c2 o2 : ℕ) (loc : BlobLocation) (value : Bytes)
      → (c < c2) ⊎ ((c ≡ c2) × (o ≤ o2))
      → Holds segs c o loc value
      → Holds segs c2 o2 loc value
  Holds-later segs c o c2 o2 loc value le h = record {
    flag = h.flag;
    key = h.key;
    stored = h.stored;
    size = h.size;
    content = h.content;
    rest = h.rest;
    key_fits = h.key_fits;
    stored_fits = h.stored_fits;
    size_fits = h.size_fits;
    found = h.found;
    at = h.at;
    back = h.back;
    before = ground (arith, h.before);
  }

  pub length-record_of :
      (flag : Bool) (key stored : Bytes) (size : ℕ)
      → length (record_of crc codec flag key stored size)
        ≡ 4 + 4 + 8 + 8 + length key + length stored + 4
  unfolding record_of checksum_data
  length-record_of true key stored size = simp (length-append, length-le_bytes) (omega arith)
  length-record_of false key stored size = simp (length-append, length-le_bytes) (omega arith)

  positive :
      (flag : Bool) (key stored : Bytes) (size : ℕ)
      → 0 < length (record_of crc codec flag key stored size)
  positive flag key stored size = omega (arith, length-record_of flag key stored size)

  -- And its bytes leave the blob as it is.
  pub Holds-write_at :
      (segs : Segments) (current offset : ℕ) (bytes : Bytes) (loc : BlobLocation) (value : Bytes)
      → Holds segs current offset loc value
      → Holds
          (insert current (write_at offset bytes (opened (lookup current segs))) segs)
          current
          (offset + length bytes)
          loc
          value
  Holds-write_at segs current offset bytes loc value h = elim h.before [
    | inl old ↦ record {
      flag = h.flag;
      key = h.key;
      stored = h.stored;
      size = h.size;
      content = h.content;
      rest = h.rest;
      key_fits = h.key_fits;
      stored_fits = h.stored_fits;
      size_fits = h.size_fits;
      found = ground (
        arith,
        lookup-insert current loc.shard new segs,
        nat_eq.eqb_iff current loc.shard,
        h.found,
      );
      at = h.at;
      back = h.back;
      before = inl old;
    }
    | inr (same, ends) ↦
        let file : opened (lookup current segs) ≡ h.content =
          ap (λ s. opened (lookup s segs)) (sym same) ∙ ap opened h.found in
        let (rest, at) =
          drop-write_at_before loc.offset offset bytes (opened (lookup current segs))
            (record_of crc codec h.flag h.key h.stored h.size) h.rest
            (ap (drop loc.offset) file ∙ h.at) ends (positive h.flag h.key h.stored h.size) in
        record {
          flag = h.flag;
          key = h.key;
          stored = h.stored;
          size = h.size;
          content = new;
          rest = rest;
          key_fits = h.key_fits;
          stored_fits = h.stored_fits;
          size_fits = h.size_fits;
          found =
              ap (λ s. lookup s (insert current new segs)) same
              ∙ lookup-insert_self current new segs;
          at = at;
          back = h.back;
          before = inr (same, omega (arith, ends));
        }
  ]
    where
      new : Bytes
      new = write_at offset bytes (opened (lookup current segs))
