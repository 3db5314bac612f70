-- ===== src/Blob/Scanned.antt =====
-- `scan_segment` of src/volume/blob.rs on a segment that holds blobs, with anything behind them that
-- does not begin with a magic.
use minikv.Prelude.{
  ltb→lt, zero, suc, ℕ, ◌+◌, ◌%◌, ◌^◌, ◌<◌, ◌≤◌, ◌≡◌, refl, sym, ap, ◌∙◌, arith, Bool, true, false,
  not, ◌&&◌, ◌||◌, some, List, [], ◌∷◌, ◌++◌, append_assoc, length, take, drop, All, length-append,
  length-drop, drop-append, drop-drop, ltb, ◌==◌, nat_eq, list_eq, if◌then◌else◌, Bool-cases, inl,
  inr,
}
use minikv.Errors.{ok, err}
use minikv.Bytes.{
  Bytes, read_exact, IsU32, IsU64, le_bytes, is_utf8, length-le_bytes, bind-word, bind-sized,
  read_size, read_exact-append, read_exact_eof, read_exact_ok, from_utf8_lossy, lossy_of_utf8,
}
use native.Mathlib.Nat.{mod-eq_of_lt}
use minikv.Blob.Format.{checksum_data, blob_magic, blob_magic_compressed}
use minikv.Blob.RoundTrip.{record_of, read_word}
use minikv.Blob.Scan.{
  add_scanned, scan_loop, scan_segment, Header, read_header, seek_current, pass_value, scan_blob,
}
use minikv.External.{Crc32, Lz4}
use minikv.Blob.Regions.{length-record_of}
use minikv.Index.{Index}
use minikv.Blob.Store.{Libraries}

-- A blob of a segment.
pub record Stored : Type 0 where
  pub flag : Bool
  pub key : Bytes
  pub stored : Bytes
  pub size : ℕ

-- Its key and its sizes are those of the file.
pub record IsScannable (b : Stored) : Type 0 where
  pub key_utf8 : is_utf8 b.key ≡ true
  pub key_fits : IsU32 (length b.key)
  pub stored_fits : length b.stored < 2 ^ 63
  pub size_fits : IsU64 b.size

abbrev pub header_of : Stored → Header
header_of b = record {
  key_len = length b.key;
  val_len = length b.stored;
  orig_len = b.size;
  key_bytes = b.key;
}

-- No blob begins here.
abbrev pub is_tail : Bytes → Bool
is_tail tail =
    ltb (length tail) 4
    || (not (take 4 tail == blob_magic) && not (take 4 tail == blob_magic_compressed))

module _ (crc : Crc32) (codec : Lz4) where
  abbrev data_of : Stored → Bytes
  data_of b = checksum_data crc codec b.key b.stored b.size

  abbrev pub bytes_of : Stored → Bytes
  bytes_of b = record_of crc codec b.flag b.key b.stored b.size

  abbrev magic_of : Bool → Bytes
  magic_of flag = if flag then blob_magic_compressed else blob_magic

  abbrev sum_of : Stored → Bytes
  sum_of b = le_bytes 4 (crc.hash (data_of b))

  is_magic :
      (flag : Bool)
      → (not (magic_of flag == blob_magic) && not (magic_of flag == blob_magic_compressed)) ≡ false
  is_magic true = refl
  is_magic false = refl

  length-magic_of : (flag : Bool) → length (magic_of flag) ≡ 4
  length-magic_of true = refl
  length-magic_of false = refl

  bytes_of-eq :
      (b : Stored) (rest : Bytes)
      → bytes_of b ++ rest ≡ magic_of b.flag ++ (data_of b ++ (sum_of b ++ rest))
  unfolding record_of
  bytes_of-eq b rest =
      append_assoc (magic_of b.flag) (data_of b ++ sum_of b) rest
      ∙ ap (λ l. magic_of b.flag ++ l) (append_assoc (data_of b) (sum_of b) rest)

  read_header_lem :
      (b : Stored) (rest : Bytes)
      → IsScannable b
      → read_header (data_of b ++ rest) ≡ ok (header_of b, b.stored ++ rest)
  unfolding read_header checksum_data
  read_header_lem b rest h = simp append_assoc (
      bind-word 4 (length b.key % 2 ^ 32) _ _
      ∙ bind-word 8 (length b.stored % 2 ^ 64) _ _
      ∙ bind-word 8 (b.size % 2 ^ 64) _ _
      ∙ bind-sized b.key _ _ h.key_fits
      ∙ rw
          (
            read_size (length b.key) h.key_fits,
            read_word (length b.stored) (omega (arith, h.stored_fits)),
            read_word b.size h.size_fits,
          )
          refl)

  length-data_of : (b : Stored) → length (data_of b) ≡ 20 + length b.key + length b.stored
  unfolding checksum_data
  length-data_of b = simp (length-append, length-le_bytes) (omega arith)

  seek_current_lem : (n pos : ℕ) → pos + n < 2 ^ 63 → seek_current n pos ≡ some (pos + n)
  unfolding seek_current
  seek_current_lem n pos h = ground arith

  pass_value_lem :
      (content rest : Bytes) (header : Header) (sum pos : ℕ)
      → drop pos content ≡ le_bytes 4 sum ++ rest
      → pass_value content header (some pos) ≡ ok (header, pos + 4)
  unfolding pass_value
  pass_value_lem content rest header sum pos at =
      rw (at, pass_value)
        (rw (read_exact-append 4 (le_bytes 4 sum) rest (length-le_bytes 4 sum), pass_value) refl)

  at_sum :
      (b : Stored) (content more : Bytes) (pos : ℕ)
      → drop pos content ≡ data_of b ++ more
      → drop (pos + length (data_of b)) content ≡ more
  at_sum b content more pos at =
      drop-drop (length (data_of b)) pos content
      ∙ ap (drop (length (data_of b))) at
      ∙ drop-append (data_of b) more

  scan_blob_lem :
      (b : Stored) (content rest : Bytes) (pos : ℕ)
      → IsScannable b
      → length content < 2 ^ 63
      → drop pos content ≡ data_of b ++ (le_bytes 4 (crc.hash (data_of b)) ++ rest)
      → scan_blob content pos ≡ ok (header_of b, pos + length (data_of b) + 4)
  unfolding scan_blob
  scan_blob_lem b content rest pos h fits at =
      let sum = le_bytes 4 (crc.hash (data_of b)) in
      let inside : pos + 20 + length b.key + length b.stored < 2 ^ 63 = omega (
        arith,
        fits,
        length-drop pos content,
        ap length at,
        length-append (data_of b) (sum ++ rest),
        length-append sum rest,
        length-le_bytes 4 (crc.hash (data_of b)),
        length-data_of b,
      ) in
      let there : pos + 20 + length b.key + length b.stored ≡ pos + length (data_of b) =
        omega (arith, length-data_of b) in
      ap
        (λ r. elim r [
          | ok (header, rest) ↦
              pass_value content header (seek_current header.val_len (pos + 20 + header.key_len))
          | err e ↦ err e
        ])
        (ap read_header at ∙ read_header_lem b (sum ++ rest) h)
      ∙ ap (pass_value content (header_of b))
          (seek_current_lem (length b.stored) (pos + 20 + length b.key) inside ∙ ap some there)
      ∙ pass_value_lem content rest (header_of b) _ _ (at_sum b content (sum ++ rest) pos at)

-- The bytes of blobs one behind the other.
abbrev pub blobs_bytes : Crc32 → Lz4 → List Stored → Bytes
blobs_bytes crc codec [] = []
blobs_bytes crc codec (b ∷ bs) = bytes_of crc codec b ++ blobs_bytes crc codec bs

module _ (libs : Libraries) where
  -- What the scan adds for blobs from an offset on.
  abbrev pub scanned : ℕ → ℕ → List Stored → Index × libs.bloom.Filter → Index × libs.bloom.Filter
  scanned segment offset [] state = state
  scanned segment offset (b ∷ bs) state =
      scanned segment (offset + (4 + 4 + 8 + 8 + length b.key + length b.stored + 4)) bs
        (add_scanned libs segment offset b.key b.size state)

  scan_loop_tail :
      (fuel segment pos offset : ℕ) (content : Bytes) (state : Index × libs.bloom.Filter)
      → is_tail (drop pos content) ≡ true
      → scan_loop libs (suc fuel) segment content pos offset state ≡ some (ok state)
  unfolding scan_loop
  scan_loop_tail fuel segment pos offset content state h =
      elim (Bool-cases (ltb (length (drop pos content)) 4)) [
        | inl short ↦ rw (read_exact_eof 4 (drop pos content) (ltb→lt _ _ short), scan_loop) refl
        | inr long ↦
            let ends : (not (take 4 (drop pos content) == blob_magic)
                  && not (take 4 (drop pos content) == blob_magic_compressed))
                ≡ true =
              ground (arith, h, long) in
            rw (read_exact_ok 4 (drop pos content) (ground arith), scan_loop)
              (rw (ends, scan_loop) refl)
      ]

  add_lossy :
      (segment offset : ℕ) (b : Stored) (state : Index × libs.bloom.Filter)
      → IsScannable b
      → add_scanned libs segment offset (from_utf8_lossy b.key) b.size state
        ≡ add_scanned libs segment offset b.key b.size state
  add_lossy segment offset b state h =
      ap (λ k. add_scanned libs segment offset k b.size state) (lossy_of_utf8 b.key h.key_utf8)

  pub blob_fits :
      (b : Stored) (pos : ℕ) (content rest : Bytes)
      → drop pos content ≡ bytes_of libs.crc libs.codec b ++ rest
      → pos ≤ length content
      → pos + (4 + 4 + 8 + 8 + length b.key + length b.stored + 4) ≤ length content
  blob_fits b pos content rest at some_left = omega (
    arith,
    length-drop pos content,
    ap length at,
    length-append (bytes_of libs.crc libs.codec b) rest,
    length-record_of libs.crc libs.codec b.flag b.key b.stored b.size,
  )

  pub after_blob :
      (b : Stored) (pos : ℕ) (content rest : Bytes)
      → drop pos content ≡ bytes_of libs.crc libs.codec b ++ rest
      → drop (pos + (4 + 4 + 8 + 8 + length b.key + length b.stored + 4)) content ≡ rest
  after_blob b pos content rest at =
      drop-drop (4 + 4 + 8 + 8 + length b.key + length b.stored + 4) pos content
      ∙ ap (drop (4 + 4 + 8 + 8 + length b.key + length b.stored + 4)) at
      ∙ ap (λ n. drop n (bytes_of libs.crc libs.codec b ++ rest))
          (sym (length-record_of libs.crc libs.codec b.flag b.key b.stored b.size))
      ∙ drop-append (bytes_of libs.crc libs.codec b) rest

  pub scan_loop_blob :
      (b : Stored) (fuel segment pos : ℕ) (content rest : Bytes) (state : Index × libs.bloom.Filter)
      → IsScannable b
      → length content < 2 ^ 63
      → drop pos content ≡ bytes_of libs.crc libs.codec b ++ rest
      → pos ≤ length content
      → scan_loop libs (suc fuel) segment content pos pos state
        ≡ scan_loop libs fuel segment content
            (pos + (4 + 4 + 8 + 8 + length b.key + length b.stored + 4))
            (pos + (4 + 4 + 8 + 8 + length b.key + length b.stored + 4))
            (add_scanned libs segment pos b.key b.size state)
  unfolding scan_loop
  scan_loop_blob b fuel segment pos content rest state h fits at some_left =
      let crc = libs.crc in
      let codec = libs.codec in
      let split = at ∙ bytes_of-eq crc codec b rest in
      let magic = magic_of crc codec b.flag in
      let behind : drop (pos + 4) content ≡ data_of crc codec b ++ (sum_of crc codec b ++ rest) =
        drop-drop 4 pos content
        ∙ ap (drop 4) split
        ∙ ap (λ n. drop n (magic ++ (data_of crc codec b ++ (sum_of crc codec b ++ rest))))
            (sym (length-magic_of crc codec b.flag))
        ∙ drop-append magic _ in
      let next : pos + 4 + length (data_of crc codec b) + 4
          ≡ pos + (4 + 4 + 8 + 8 + length b.key + length b.stored + 4) =
        omega (arith, length-data_of crc codec b) in
      let inside : pos + (4 + 4 + 8 + 8 + length b.key + length b.stored + 4) < 2 ^ 64 =
        omega (arith, fits, blob_fits b pos content rest at some_left) in
      let read =
        ap (read_exact 4) split ∙ read_exact-append 4 magic _ (length-magic_of crc codec b.flag) in
      rw (read, scan_loop)
        (rw (is_magic crc codec b.flag, scan_loop)
          (rw (scan_blob_lem crc codec b content rest (pos + 4) h fits behind, scan_loop)
            (rw (next, mod-eq_of_lt inside, add_lossy segment pos b state h) refl)))

  scan_loop_lem :
      (bs : List Stored) (tail : Bytes) (fuel segment pos : ℕ) (content : Bytes)
      (state : Index × libs.bloom.Filter)
      → All IsScannable bs
      → is_tail tail ≡ true
      → length content < 2 ^ 63
      → drop pos content ≡ blobs_bytes libs.crc libs.codec bs ++ tail
      → pos ≤ length content
      → length content < pos + fuel
      → scan_loop libs fuel segment content pos pos state ≡ some (ok (scanned segment pos bs state))
  scan_loop_lem bs tail zero segment pos content state hs ends fits at left enough =
      absurd (omega arith)
  scan_loop_lem [] tail (suc fuel) segment pos content state hs ends fits at left enough =
      scan_loop_tail fuel segment pos pos content state (ap is_tail at ∙ ends)
  scan_loop_lem (b ∷ bs) tail (suc fuel) segment pos content state (h, hs) ends fits at left
        enough =
      let split =
        at
        ∙ append_assoc (bytes_of libs.crc libs.codec b) (blobs_bytes libs.crc libs.codec bs) tail in
      scan_loop_blob b fuel segment pos content _ state h fits split left
      ∙ scan_loop_lem bs tail fuel segment _ content _ hs ends fits
          (after_blob b pos content _ split) (blob_fits b pos content _ split left)
          (omega (arith, enough))

  -- Scanning a segment file that holds blobs, with bytes behind them that begin with no magic, ends, and
  -- adds each blob.
  pub scan_segment_lem :
      (bs : List Stored) (tail : Bytes) (segment : ℕ) (state : Index × libs.bloom.Filter)
      → All IsScannable bs
      → is_tail tail ≡ true
      → length (blobs_bytes libs.crc libs.codec bs ++ tail) < 2 ^ 63
      → scan_segment libs segment (blobs_bytes libs.crc libs.codec bs ++ tail) state
        ≡ some (ok (scanned segment 0 bs state))
  unfolding scan_segment
  scan_segment_lem bs tail segment state hs ends fits =
      scan_loop_lem bs tail _ segment 0 _ state hs ends fits refl (omega arith) (omega arith)
