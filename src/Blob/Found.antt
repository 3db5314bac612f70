-- ===== src/Blob/Found.antt =====
-- The index that the scan of src/volume/blob.rs makes of segment files: the last blob of each key.
use minikv.Prelude.{
  ◌^◌, Bool-cases, inl, inr, subst, ℕ, ◌+◌, ◌<◌, ◌≡◌, refl, ap, ◌∙◌, arith, Bool, true, false,
  Option, none, some, List, [], ◌∷◌, ◌++◌, length, All, length-append, ◌==◌, nat_eq, list_eq,
  eq_refl, list_beq_iff, if◌then◌else◌,
}
use minikv.Errors.{ok}
use minikv.Bytes.{Bytes}
use minikv.HashMap.{lookup}
use minikv.HashMap.Laws.{lookup-insert}
use minikv.Index.{Index, BlobLocation}
use minikv.Blob.Format.{Segments}
use minikv.Blob.Regions.{length-record_of}
use minikv.Blob.Store.{Libraries, hash_bytes}
use minikv.Blob.Scan.{add_scanned, rebuild_index_from_segments}
use minikv.Blob.Scanned.{
  Stored, IsScannable, is_tail, blobs_bytes, bytes_of, scanned, scan_segment_lem,
}

-- A segment file: its number, its blobs, and what is behind them.
pub record SegmentFile : Type 0 where
  pub number : ℕ
  pub blobs : List Stored
  pub tail : Bytes

abbrev pub is_some {ℓ} : {A : Type ℓ} → Option A → Bool
is_some none = false
is_some (some a) = true

module _ (libs : Libraries) where
  -- Where the scan finds a blob. The sum is that of the key, and no time of expiry is left.
  abbrev pub location_of : ℕ → ℕ → Stored → BlobLocation
  location_of segment offset b = record {
    shard = segment;
    offset = offset;
    size = b.size;
    blake3 = libs.blake3.display (libs.blake3.digest b.key);
    expires_at = none;
  }

  -- The last blob of a key, from an offset on, or else what was found before.
  abbrev pub last_blob : ℕ → ℕ → List Stored → Bytes → Option BlobLocation → Option BlobLocation
  last_blob segment offset [] key before = before
  last_blob segment offset (b ∷ bs) key before =
      last_blob segment (offset + (4 + 4 + 8 + 8 + length b.key + length b.stored + 4)) bs key
        (if b.key == key then some (location_of segment offset b) else before)

  -- And in all files, in their order.
  abbrev pub last_in : List SegmentFile → Bytes → Option BlobLocation → Option BlobLocation
  last_in [] key before = before
  last_in (f ∷ fs) key before = last_in fs key (last_blob f.number 0 f.blobs key before)

  abbrev pub segments_of : List SegmentFile → Segments
  segments_of [] = []
  segments_of (f ∷ fs) =
      (f.number, blobs_bytes libs.crc libs.codec f.blobs ++ f.tail) ∷ segments_of fs

  pub record IsScannableFile (f : SegmentFile) : Type 0 where
    pub blobs_scannable : All IsScannable f.blobs
    pub ends : is_tail f.tail ≡ true
    pub fits : length (blobs_bytes libs.crc libs.codec f.blobs ++ f.tail) < 2 ^ 63

  -- The location of each key, and that the filter has the keys that the index has.
  abbrev pub IsFound : Index × libs.bloom.Filter → (Bytes → Option BlobLocation) → Type 0
  IsFound state found =
      ((key : Bytes) → lookup key state.0.map ≡ found key)
      × ((key : Bytes)
          → is_some (found key) ≡ true
          → libs.bloom.check (hash_bytes libs key) state.1 ≡ true)

  add_scanned-IsFound :
      (segment offset : ℕ) (b : Stored) (state : Index × libs.bloom.Filter)
      (found : Bytes → Option BlobLocation)
      → IsFound state found
      → IsFound
          (add_scanned libs segment offset b.key b.size state)
          (λ key. if b.key == key then some (location_of segment offset b) else found key)
  unfolding add_scanned
  add_scanned-IsFound segment offset b (index, bloom) found (held, kept) = (
    λ key.
        lookup-insert b.key key (location_of segment offset b) index.map
        ∙ ap (λ x. if b.key == key then some (location_of segment offset b) else x) (held key),
    λ key h. elim (Bool-cases (b.key == key)) [
      | inl same ↦
          subst
            (λ j.
              libs.bloom.check (hash_bytes libs j) (libs.bloom.set (hash_bytes libs b.key) bloom)
              ≡ true)
            ((list_beq_iff b.key key).0 same) (libs.bloom.check-set (hash_bytes libs b.key) bloom)
      | inr other ↦
          libs.bloom.check-set_other (hash_bytes libs key) (hash_bytes libs b.key) bloom
            (kept key (rw other at h))
    ],
  )

  scanned-IsFound :
      (segment offset : ℕ) (bs : List Stored) (state : Index × libs.bloom.Filter)
      (found : Bytes → Option BlobLocation)
      → IsFound state found
      → IsFound
          (scanned libs segment offset bs state)
          (λ key. last_blob segment offset bs key (found key))
  scanned-IsFound segment offset [] state found h = h
  scanned-IsFound segment offset (b ∷ bs) state found h =
      scanned-IsFound segment (offset + (4 + 4 + 8 + 8 + length b.key + length b.stored + 4)) bs _ _
        (add_scanned-IsFound segment offset b state found h)

  pub rebuild-IsFound :
      (fs : List SegmentFile) (state : Index × libs.bloom.Filter)
      (found : Bytes → Option BlobLocation)
      → All IsScannableFile fs
      → IsFound state found
      → (after : Index × libs.bloom.Filter) × (rebuild_index_from_segments libs
            (segments_of fs)
            state
          ≡ some (ok after))
        × IsFound after (λ key. last_in fs key (found key))
  unfolding rebuild_index_from_segments
  rebuild-IsFound [] state found hs h = (state, refl, h)
  rebuild-IsFound (f ∷ fs) state found (hf, hs) h =
      let (after, ran, all) =
        rebuild-IsFound fs (scanned libs f.number 0 f.blobs state) _ hs
          (scanned-IsFound f.number 0 f.blobs state found h) in
      (
        after,
        rw
            (
              scan_segment_lem libs f.blobs f.tail f.number state hf.blobs_scannable hf.ends
                  hf.fits,
              rebuild_index_from_segments,
            )
            ran,
        all,
      )

  pub last_blob-last :
      (segment offset : ℕ) (bs : List Stored) (b : Stored) (before : Option BlobLocation)
      → last_blob segment offset (bs ++ b ∷ []) b.key before
        ≡ some (location_of segment (offset + length (blobs_bytes libs.crc libs.codec bs)) b)
  last_blob-last segment offset [] b before =
      rw (eq_refl b.key) (ap (λ o. some (location_of segment o b)) (omega arith))
  last_blob-last segment offset (c ∷ bs) b before =
      last_blob-last segment (offset + (4 + 4 + 8 + 8 + length c.key + length c.stored + 4)) bs b _
      ∙ ap (λ o. some (location_of segment o b))
          (omega (
            arith,
            length-append (bytes_of libs.crc libs.codec c) (blobs_bytes libs.crc libs.codec bs),
            length-record_of libs.crc libs.codec c.flag c.key c.stored c.size,
          ))
