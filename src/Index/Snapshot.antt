-- ===== src/Index/Snapshot.antt =====
-- A snapshot that was saved loads to the same index.
use minikv.Prelude.{
  ℕ, ◌<◌, ◌%◌, ◌^◌, ◌≡◌, refl, sym, ap, ◌∙◌, true, Option, none, some, [], ◌∷◌, ◌++◌, arith, nat_eq,
  list_eq, length, All, append_assoc, append-nil,
}
use minikv.Errors.{ok, err}
use native.Mathlib.Nat.{mod-eq_of_lt}
use minikv.Bytes.{
  Bytes, IsU32, IsU64, le_bytes, from_le_bytes-le_bytes, is_utf8, Reader, ◌>>=◌, bind-eq, bind-lift,
  bind-read_exact, bind-word, bind-sized, from_utf8_ok,
}
use minikv.Disk.{BufWriter, stream, stream-write_all, content-flush}
use minikv.HashMap.{HashMap, HasDistinctKeys}
use minikv.HashMap.Laws.{insert_fresh, fresh_before}
use minikv.Index.{
  Index, BlobLocation, or_zero, snapshot_magic, write_entry, write_entries, save_snapshot,
  read_expiry, read_snapshot_entry, read_entries, load_body, load_snapshot,
}

-- A time of 0 would be read back as no time.
abbrev pub FitsExpiry : Option ℕ → Type 0
FitsExpiry none = Unit
FitsExpiry (some t) = (0 < t) × IsU64 t

-- What the format can hold.
pub record IsStorable (e : Bytes × BlobLocation) : Type 0 where
  pub key_utf8 : is_utf8 e.0 ≡ true
  pub key_short : IsU32 (length e.0)
  pub shard_fits : IsU64 e.1.shard
  pub offset_fits : IsU64 e.1.offset
  pub size_fits : IsU64 e.1.size
  pub hash_utf8 : is_utf8 e.1.blake3 ≡ true
  pub hash_short : IsU32 (length e.1.blake3)
  pub expiry_fits : FitsExpiry e.1.expires_at

entry_bytes : Bytes × BlobLocation → Bytes
entry_bytes e =
    le_bytes 4 (length e.0 % 2 ^ 32)
    ++ (e.0
        ++ (le_bytes 8 e.1.shard
            ++ (le_bytes 8 e.1.offset
                ++ (le_bytes 8 e.1.size
                    ++ (le_bytes 4 (length e.1.blake3 % 2 ^ 32)
                        ++ (e.1.blake3 ++ le_bytes 8 (or_zero e.1.expires_at)))))))

abbrev map_bytes : HashMap Bytes BlobLocation → Bytes
map_bytes [] = []
map_bytes (e ∷ m) = entry_bytes e ++ map_bytes m

stream-write_entry :
    (e : Bytes × BlobLocation) (w : BufWriter)
    → stream (write_entry e.0 e.1 w) ≡ stream w ++ entry_bytes e
unfolding write_entry entry_bytes
stream-write_entry e w = simp (stream-write_all, append_assoc)

stream-write_entries :
    (m : HashMap Bytes BlobLocation) (w : BufWriter)
    → stream (write_entries m w) ≡ stream w ++ map_bytes m
unfolding write_entries
stream-write_entries [] w = sym (append-nil (stream w))
stream-write_entries (e ∷ m) w =
    stream-write_entries m (write_entry e.0 e.1 w)
    ∙ ap (λ l. l ++ map_bytes m) (stream-write_entry e w)
    ∙ append_assoc (stream w) (entry_bytes e) (map_bytes m)

read_expiry-ok :
    (o : Option ℕ) (s : Bytes)
    → FitsExpiry o
    → read_expiry true (le_bytes 8 (or_zero o) ++ s) ≡ ok (o, s)
unfolding read_expiry
read_expiry-ok none s h = bind-word 8 0 s _ ∙ rw (from_le_bytes-le_bytes 8 0 (omega arith))
read_expiry-ok (some t) s (pos, fits) =
    bind-word 8 t s _ ∙ rw (from_le_bytes-le_bytes 8 t fits) (ground arith)

bind-read_expiry :
    (o : Option ℕ) (s : Bytes) (f : Option ℕ → Reader (Bytes × BlobLocation))
    → FitsExpiry o
    → (read_expiry true >>= f) (le_bytes 8 (or_zero o) ++ s) ≡ f o s
bind-read_expiry o s f h =
    bind-eq (read_expiry true) (le_bytes 8 (or_zero o) ++ s) o s f (read_expiry-ok o s h)

read_snapshot_entry_lem :
    (e : Bytes × BlobLocation) (s : Bytes)
    → IsStorable e
    → read_snapshot_entry true (entry_bytes e ++ s) ≡ ok (e, s)
unfolding read_snapshot_entry entry_bytes
read_snapshot_entry_lem e s h = simp append_assoc (
    bind-word 4 (length e.0 % 2 ^ 32) _ _
    ∙ bind-sized e.0 _ _ h.key_short
    ∙ bind-lift _ e.0 _ _ (from_utf8_ok _ e.0 h.key_utf8)
    ∙ bind-word 8 e.1.shard _ _
    ∙ bind-word 8 e.1.offset _ _
    ∙ bind-word 8 e.1.size _ _
    ∙ bind-word 4 (length e.1.blake3 % 2 ^ 32) _ _
    ∙ bind-sized e.1.blake3 _ _ h.hash_short
    ∙ bind-lift _ e.1.blake3 _ _ (from_utf8_ok _ e.1.blake3 h.hash_utf8)
    ∙ bind-read_expiry e.1.expires_at s _ h.expiry_fits
    ∙ rw (
      from_le_bytes-le_bytes 8 e.1.shard h.shard_fits,
      from_le_bytes-le_bytes 8 e.1.offset h.offset_fits,
      from_le_bytes-le_bytes 8 e.1.size h.size_fits,
    ))

read_entries_lem :
    (m acc : HashMap Bytes BlobLocation) (s : Bytes)
    → All IsStorable m
    → HasDistinctKeys (acc ++ m)
    → read_entries true (length m) (record { map = acc }) (map_bytes m ++ s)
      ≡ ok (record { map = acc ++ m }, s)
unfolding read_entries
read_entries_lem [] acc s h d = rw append-nil refl
read_entries_lem ((k, loc) ∷ m) acc s (he, hs) d =
    rw (append_assoc (entry_bytes (k, loc)) (map_bytes m) s) (
      bind-eq (read_snapshot_entry true) _ (k, loc) (map_bytes m ++ s) _
        (read_snapshot_entry_lem (k, loc) _ he)
      ∙ rw (insert_fresh k loc acc (fresh_before k loc acc m d)) (
          rw (append_assoc acc ((k, loc) ∷ []) m) at
            (read_entries_lem m (acc ++ (k, loc) ∷ []) s hs (rw append_assoc d))))

snapshot_bytes : Index → Bytes
snapshot_bytes ix = snapshot_magic ++ (le_bytes 8 (length ix.map % 2 ^ 64) ++ map_bytes ix.map)

save_snapshot-eq : (ix : Index) → save_snapshot ix ≡ snapshot_bytes ix
unfolding save_snapshot snapshot_bytes
save_snapshot-eq ix =
    content-flush _ ∙ stream-write_entries ix.map _ ∙ simp (stream-write_all, append_assoc)

load_body_lem :
    (ix : Index)
    → All IsStorable ix.map
    → HasDistinctKeys ix.map
    → IsU64 (length ix.map)
    → load_body snapshot_magic (le_bytes 8 (length ix.map % 2 ^ 64) ++ map_bytes ix.map)
      ≡ ok (ix, [])
unfolding load_body
load_body_lem ix h d fits =
    bind-word 8 (length ix.map % 2 ^ 64) (map_bytes ix.map) _
    ∙ rw (mod-eq_of_lt fits, from_le_bytes-le_bytes 8 (length ix.map) fits)
        (rw append-nil at (read_entries_lem ix.map [] [] h d))

-- Loading the file that a save has written gives the index back: every key with its location and
-- its time of expiry, if each fits the format, no time is 0 and no key stands twice.
pub load_snapshot-save_snapshot :
    (ix : Index)
    → All IsStorable ix.map
    → HasDistinctKeys ix.map
    → IsU64 (length ix.map)
    → load_snapshot (save_snapshot ix) ≡ ok ix
unfolding load_snapshot snapshot_bytes
load_snapshot-save_snapshot ix h d fits = rw (save_snapshot-eq ix) (
    ap (λ r. elim r [ ok (loaded, rest) ↦ ok loaded | err e ↦ err e ])
      (bind-read_exact 8 snapshot_magic _ load_body refl ∙ load_body_lem ix h d fits))
