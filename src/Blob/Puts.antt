-- ===== src/Blob/Puts.antt =====
-- A put in the store of src/volume/blob.rs puts in the map it stands for.
use minikv.Prelude.{
  ℕ, ◌+◌, ◌≡◌, refl, sym, ap, ◌∙◌, inl, inr, true, false, Bool-cases, Option, some, none, nat_eq,
  list_eq, list_beq_iff, ◌==◌, if◌then◌else◌,
}
use minikv.Bytes.{Bytes}
use minikv.HashMap.{lookup, insert}
use minikv.HashMap.Laws.{lookup-insert, lookup-insert_self, insert-HasDistinctKeys}
use minikv.Index.{Index, BlobLocation, has_expired, get_if_valid, is_expired}
use minikv.Blob.Store.{Libraries, BlobStore, hash_bytes, advance, put_with_ttl, expiry}
use minikv.Blob.Abstract.{HoldsIn, Agrees, Implements}
use minikv.Blob.Spec.{Spec, Command, put, delete as delete_key, cleanup, spec_step, until}
use minikv.Blob.Writes.{Storable, advance_lem, Holds-written_old, Holds-written_new}
use minikv.Index
use minikv.Blob.Keys.{written_no_expiry, HasRoom, written, logged, put_with_ttl_fits}

module _ (libs : Libraries) where
  insert-Agrees_elsewhere :
      (store after : BlobStore libs) (key : Bytes) (loc : BlobLocation)
      → after.index.map ≡ insert key loc store.index.map
      → ((l : BlobLocation) (v : Bytes) → HoldsIn libs store l v → HoldsIn libs after l v)
      → ((k : Bytes)
          → libs.bloom.check (hash_bytes libs k) store.bloom ≡ true
          → libs.bloom.check (hash_bytes libs k) after.bloom ≡ true)
      → (k : Bytes) → (key == k) ≡ false
      → (o : Option (Bytes × Option ℕ)) → Agrees libs store k o
      → Agrees libs after k o
  insert-Agrees_elsewhere store after key loc index kept still k differ none h =
      ap (lookup k) index ∙ lookup-insert key k loc store.index.map ∙ rw differ h
  insert-Agrees_elsewhere store after key loc index kept still k differ (some (v, e))
        (l, found, same, holds, check) =
      (
        l,
        ap (lookup k) index ∙ lookup-insert key k loc store.index.map ∙ rw differ found,
        same,
        kept l v holds,
        still k check,
      )

  insert-Agrees :
      (store after : BlobStore libs) (key : Bytes) (loc : BlobLocation) (value : Bytes)
      → after.index.map ≡ insert key loc store.index.map
      → HoldsIn libs after loc value
      → ((l : BlobLocation) (v : Bytes) → HoldsIn libs store l v → HoldsIn libs after l v)
      → libs.bloom.check (hash_bytes libs key) after.bloom ≡ true
      → ((k : Bytes)
          → libs.bloom.check (hash_bytes libs k) store.bloom ≡ true
          → libs.bloom.check (hash_bytes libs k) after.bloom ≡ true)
      → (k : Bytes) (o : Option (Bytes × Option ℕ)) → Agrees libs store k o
      → Agrees libs after k (if key == k then some (value, loc.expires_at) else o)
  insert-Agrees store after key loc value index held kept checked still k o h =
      elim (Bool-cases (key == k)) [
        | inl same ↦ rw same (
          loc,
          ap (lookup k) index
              ∙ ap (λ j. lookup j (insert key loc store.index.map))
                  (sym ((list_beq_iff key k).0 same))
              ∙ lookup-insert_self key loc store.index.map,
          refl,
          held,
          ap (λ j. libs.bloom.check (hash_bytes libs j) after.bloom)
                (sym ((list_beq_iff key k).0 same))
              ∙ checked,
        )
        | inr differ ↦
            rw differ (insert-Agrees_elsewhere store after key loc index kept still k differ o h)
      ]

  Holds-expiry :
      (now : ℕ) (ttl_ms : Option ℕ) (store : BlobStore libs) (loc : BlobLocation) (value : Bytes)
      → HoldsIn libs store loc value
      → HoldsIn libs store (expiry libs now ttl_ms loc) value
  unfolding expiry
  Holds-expiry now none store loc value h = h
  Holds-expiry now (some ttl) store loc value h = record {
    flag = h.flag;
    key = h.key;
    stored = h.stored;
    size = h.size;
    content = h.content;
    rest = h.rest;
    key_fits = h.key_fits;
    stored_fits = h.stored_fits;
    size_fits = h.size_fits;
    found = h.found;
    at = h.at;
    back = h.back;
    before = h.before;
  }

  expiry-until :
      (now : ℕ) (ttl_ms : Option ℕ) (loc : BlobLocation)
      → loc.expires_at ≡ none
      → (expiry libs now ttl_ms loc).expires_at ≡ until now ttl_ms
  unfolding expiry
  expiry-until now none loc e = e
  expiry-until now (some ttl) loc e = refl

  -- What a put asks for: there is room, and the format can hold the key and the value.
  abbrev pub Fits : Command → BlobStore libs → Type 0
  Fits (put now key value ttl_ms) store =
      HasRoom libs store × Storable libs.crc libs.codec store.compression key value
  Fits (delete_key key) store = Unit {0}
  Fits (cleanup now) store = Unit {0}

  pub put-Implements :
      (now : ℕ) (key value : Bytes) (ttl_ms : Option ℕ) (store : BlobStore libs) (spec : Spec)
      → Fits (put now key value ttl_ms) store
      → Implements libs store spec
      → Implements libs
          (put_with_ttl libs now key value ttl_ms store).0
          (spec_step (put now key value ttl_ms) spec)
  unfolding logged spec_step
  put-Implements now key value ttl_ms store spec (room, storable) h =
      let before = logged libs key value store in
      let next = advance libs before in
      let (segs, location, size) = written libs key value before in
      let after : BlobStore libs = record next {
        segments = segs;
        current_offset = location.offset + size;
        index = Index.insert_key key (expiry libs now ttl_ms location) next.index;
      } in
      let (le, same_segments, same_index, same_bloom, same_mode) = advance_lem libs before in
      let held : HoldsIn libs after location value =
        Holds-written_new libs key value before (rw same_mode storable) in
      rw (put_with_ttl_fits libs now key value ttl_ms store room) record {
        agrees = λ k.
            rw (← expiry-until now ttl_ms location (written_no_expiry libs key value before)) (
              insert-Agrees store after key (expiry libs now ttl_ms location) value
                (ap (λ i. insert key (expiry libs now ttl_ms location) i.map) same_index)
                (Holds-expiry now ttl_ms after location value held)
                (λ l v held_before. Holds-written_old libs key value before l v held_before)
                (rw same_bloom (libs.bloom.check-set (hash_bytes libs key) store.bloom))
                (λ j c. rw same_bloom (
                  libs.bloom.check-set_other (hash_bytes libs j) (hash_bytes libs key) store.bloom
                    c))
                k (spec k) (h.agrees k));
        distinct = rw same_index (insert-HasDistinctKeys key _ store.index.map h.distinct);
      }
