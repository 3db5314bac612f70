-- ===== src/Blob/Endless.antt =====
-- `scan_segment` of src/volume/blob.rs on a segment with a size of a value that moves the reader back.
use minikv.Prelude.{
  zero, suc, ℕ, ◌+◌, ◌-◌, ◌%◌, ◌^◌, ◌<◌, ◌≤◌, ◌≡◌, refl, ap, ◌∙◌, arith, none, some, [], ◌++◌,
  append_assoc, length, drop, length-append, length-drop, drop-append, drop-drop, nat_eq, list_eq,
}
use minikv.Errors.{ok}
use minikv.Bytes.{
  Bytes, read_exact, le_bytes, from_le_bytes, bind-word, bind-read_exact, read_exact-append,
  read_exact_ok, from_utf8_lossy,
}
use minikv.Index.{Index}
use minikv.Blob.Format.{blob_magic}
use minikv.Blob.Scan.{
  Header, read_header, seek_current, pass_value, scan_blob, scan_loop, add_scanned,
}
use minikv.Blob.Store.{Libraries}
use minikv.Blob.Scanned.{Stored, IsScannable, bytes_of, scan_loop_blob, blob_fits, after_blob}

-- The size -28 of a value of a blob without a key.
abbrev pub fields_back : Bytes
fields_back = le_bytes 4 0 ++ (le_bytes 8 (2 ^ 64 - 28) ++ le_bytes 8 0)

abbrev pub blob_back : Bytes
blob_back = blob_magic ++ fields_back

abbrev header_back : Header
header_back = record { key_len = 0; val_len = 2 ^ 64 - 28; orig_len = 0; key_bytes = [] }

read_header_back : (rest : Bytes) → read_header (fields_back ++ rest) ≡ ok (header_back, rest)
unfolding read_header le_bytes from_le_bytes
read_header_back rest = simp append_assoc (
    bind-word 4 0 _ _
    ∙ bind-word 8 (2 ^ 64 - 28) _ _
    ∙ bind-word 8 0 _ _
    ∙ bind-read_exact 0 [] rest _ refl)

scan_blob_back :
    (content rest : Bytes) (pos : ℕ)
    → 4 ≤ pos
    → pos < 2 ^ 63
    → pos ≤ length content
    → drop (pos + 4) content ≡ fields_back ++ rest
    → scan_blob content (pos + 4) ≡ ok (header_back, pos)
unfolding scan_blob seek_current pass_value
scan_blob_back content rest pos front fits inside at =
    let read = ap read_header at ∙ read_header_back rest in
    let there : seek_current (2 ^ 64 - 28) (pos + 4 + 20 + 0) ≡ some (pos - 4) = ground arith in
    let sum : pass_value content header_back (some (pos - 4)) ≡ ok (header_back, pos) =
      rw
        (
          read_exact_ok 4 (drop (pos - 4) content) (omega (arith, length-drop (pos - 4) content)),
          pass_value,
        )
        (ap (λ p. ok (header_back, p)) (omega arith)) in
    rw (read, scan_blob) (ap (pass_value content header_back) there ∙ sum)

module _ (libs : Libraries) where
  round :
      (content rest : Bytes) (fuel segment pos offset : ℕ) (state : Index × libs.bloom.Filter)
      → 4 ≤ pos
      → pos < 2 ^ 63
      → drop pos content ≡ blob_back ++ rest
      → scan_loop libs (suc fuel) segment content pos offset state
        ≡ scan_loop libs fuel segment content pos
            ((offset + (4 + 4 + 8 + 8 + 0 + (2 ^ 64 - 28) + 4)) % 2 ^ 64)
            (add_scanned libs segment offset (from_utf8_lossy []) 0 state)
  unfolding scan_loop
  round content rest fuel segment pos offset state front fits at =
      let there = at ∙ append_assoc blob_magic fields_back rest in
      let read =
        ap (read_exact 4) there ∙ read_exact-append 4 blob_magic (fields_back ++ rest) refl in
      let behind : drop (pos + 4) content ≡ fields_back ++ rest =
        drop-drop 4 pos content
        ∙ ap (drop 4) there
        ∙ drop-append blob_magic (fields_back ++ rest) in
      let inside : pos ≤ length content = omega (
        arith,
        length-drop pos content,
        ap length there,
        length-append blob_magic (fields_back ++ rest),
      ) in
      rw (read, scan_loop)
        (rw (scan_blob_back content rest pos front fits inside behind, scan_loop) refl)

  stuck :
      (fuel : ℕ) (content rest : Bytes) (segment pos offset : ℕ) (state : Index × libs.bloom.Filter)
      → 4 ≤ pos
      → pos < 2 ^ 63
      → drop pos content ≡ blob_back ++ rest
      → scan_loop libs fuel segment content pos offset state ≡ none
  unfolding scan_loop
  stuck zero content rest segment pos offset state front fits at = refl
  stuck (suc fuel) content rest segment pos offset state front fits at =
      round content rest fuel segment pos offset state front fits at
      ∙ stuck fuel content rest segment pos _ _ front fits at

  -- The scan of a segment does not end on every file: behind a blob that the format can hold, a blob
  -- without a key whose size of the value is 2^64 - 28 moves the reader back to where it began. The
  -- loop is then still running after any number of rounds, whatever follows in the file.
  pub scan_loop_endless :
      (b : Stored) (rest : Bytes) (fuel segment : ℕ) (state : Index × libs.bloom.Filter)
      → IsScannable b
      → length (bytes_of libs.crc libs.codec b ++ (blob_back ++ rest)) < 2 ^ 63
      → scan_loop libs fuel segment
          (bytes_of libs.crc libs.codec b ++ (blob_back ++ rest))
          0
          0
          state
        ≡ none
  unfolding scan_loop
  scan_loop_endless b rest zero segment state h fits = refl
  scan_loop_endless b rest (suc fuel) segment state h fits =
      scan_loop_blob libs b fuel segment 0 _ (blob_back ++ rest) state h fits refl (omega arith)
      ∙ stuck fuel _ rest segment _ _ _ (omega arith)
          (omega (arith, blob_fits libs b 0 _ (blob_back ++ rest) refl (omega arith)))
          (after_blob libs b 0 _ (blob_back ++ rest) refl)
