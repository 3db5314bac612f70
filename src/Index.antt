-- ===== src/Index.antt =====
-- src/volume/index.rs: the in-memory index of a volume, its expiry, and its snapshot file. The clock
-- (milliseconds since the epoch) is read by the caller and handed in.
pub mod Expiry
pub mod Snapshot
mod Tests
use minikv.Prelude.{
  map, ℕ, zero, suc, ◌%◌, ◌^◌, Bool, true, false, not, ◌&&◌, Option, none, some, List, [], ◌∷◌,
  ◌++◌, ltb, ◌==◌, nat_eq, list_eq, length, if◌then◌else◌,
}
use minikv.Errors.{Result, ok, err, corrupted}
use minikv.Bytes.{
  Bytes, Reader, pure, fail, lift, ◌>>=◌, ◌>>◌, read_exact, le_bytes, from_le_bytes, from_utf8,
}
use minikv.Disk.{BufWriter, write_all, flush}
use minikv.HashMap.{HashMap, lookup, insert, remove, contains_key}

pub record BlobLocation : Type 0 where
  pub shard : ℕ
  pub offset : ℕ
  pub size : ℕ
  pub blake3 : Bytes
  pub expires_at : Option ℕ

pub record Index : Type 0 where
  pub map : HashMap Bytes BlobLocation

abbrev pub new : Index
new = record { map = [] }

abbrev pub insert_key : Bytes → BlobLocation → Index → Index
insert_key key location ix = record { map = insert key location ix.map }

abbrev pub get : Bytes → Index → Option BlobLocation
get key ix = lookup key ix.map

-- `self.map.remove(key)`, without its answer, which no caller reads.
abbrev pub remove_key : Bytes → Index → Index
remove_key key ix = record { map = remove key ix.map }

abbrev pub contains : Bytes → Index → Bool
contains key ix = contains_key key ix.map

abbrev pub len : Index → ℕ
len ix = length ix.map

abbrev pub is_empty : Index → Bool
is_empty ix = len ix == 0

-- The entries in the order of the map, and their keys.
abbrev pub iter : Index → List (Bytes × BlobLocation)
iter ix = ix.map

abbrev pub keys : Index → List Bytes
keys ix = map (λ entry. entry.0) ix.map

abbrev pub clear : Index → Index
clear ix = record ix { map = [] }

-- Past its time: `now > expires_at`.
unfoldable pub has_expired : ℕ → BlobLocation → Bool
has_expired now loc = elim loc.expires_at [ none ↦ false | some expires_at ↦ ltb expires_at now ]

unfoldable pub is_expired : ℕ → Bytes → Index → Bool
unfolding has_expired
is_expired now key ix = elim (get key ix) [ none ↦ false | some loc ↦ has_expired now loc ]

unfoldable pub get_if_valid : ℕ → Bytes → Index → Option BlobLocation
unfolding is_expired
get_if_valid now key ix = if is_expired now key ix then none else get key ix

unfoldable pub expired_keys : ℕ → HashMap Bytes BlobLocation → List Bytes
unfolding has_expired
expired_keys now [] = []
expired_keys now ((k, loc) ∷ m) =
    let rest = expired_keys now m in if has_expired now loc then k ∷ rest else rest

unfoldable pub remove_all : List Bytes → HashMap Bytes BlobLocation → HashMap Bytes BlobLocation
remove_all [] m = m
remove_all (k ∷ ks) m = remove_all ks (remove k m)

-- The index without its expired keys, and how many there were.
unfoldable pub cleanup_expired : ℕ → Index → Index × ℕ
unfolding expired_keys remove_all
cleanup_expired now ix =
    let gone = expired_keys now ix.map in (record { map = remove_all gone ix.map }, length gone)

ttl_entries : HashMap Bytes BlobLocation → List (Bytes × ℕ)
ttl_entries [] = []
ttl_entries ((k, loc) ∷ m) =
    let rest = ttl_entries m in elim loc.expires_at [ none ↦ rest | some exp ↦ (k, exp) ∷ rest ]

unfoldable pub keys_with_ttl : Index → List (Bytes × ℕ)
unfolding ttl_entries
keys_with_ttl ix = ttl_entries ix.map

-- b"KVINDEX3" and, without TTL, b"KVINDEX2"
abbrev pub snapshot_magic : Bytes
snapshot_magic = 0x4b ∷ 0x56 ∷ 0x49 ∷ 0x4e ∷ 0x44 ∷ 0x45 ∷ 0x58 ∷ 0x33 ∷ []

abbrev pub snapshot_magic_v2 : Bytes
snapshot_magic_v2 = 0x4b ∷ 0x56 ∷ 0x49 ∷ 0x4e ∷ 0x44 ∷ 0x45 ∷ 0x58 ∷ 0x32 ∷ []

abbrev pub or_zero : Option ℕ → ℕ
or_zero none = 0
or_zero (some t) = t

pub write_entry : Bytes → BlobLocation → BufWriter → BufWriter
write_entry key loc w =
    let w = write_all (le_bytes 4 (length key % 2 ^ 32)) w in
    let w = write_all key w in
    let w = write_all (le_bytes 8 loc.shard) w in
    let w = write_all (le_bytes 8 loc.offset) w in
    let w = write_all (le_bytes 8 loc.size) w in
    let w = write_all (le_bytes 4 (length loc.blake3 % 2 ^ 32)) w in
    let w = write_all loc.blake3 w in write_all (le_bytes 8 (or_zero loc.expires_at)) w

pub write_entries : HashMap Bytes BlobLocation → BufWriter → BufWriter
write_entries [] w = w
write_entries ((key, loc) ∷ m) w = write_entries m (write_entry key loc w)

-- The file that is left, over whatever was there before.
pub save_snapshot : Index → Bytes
unfolding write_entry write_entries
save_snapshot ix =
    let w : BufWriter = record { file = record { content = []; synced = [] }; buffer = [] } in
    let w = write_all snapshot_magic w in
    let w = write_all (le_bytes 8 (length ix.map % 2 ^ 64)) w in
    (flush (write_entries ix.map w)).file.content

pub read_expiry : Bool → Reader (Option ℕ)
read_expiry has_ttl =
    if has_ttl
    then (do
      expires_bytes ← read_exact 8
      let ts = from_le_bytes expires_bytes
      pure (if ts == 0 then none else some ts))
    else pure none

-- One round of the loop of `load_snapshot`.
pub read_snapshot_entry : Bool → Reader (Bytes × BlobLocation)
unfolding read_expiry
read_snapshot_entry has_ttl = do
  key_len_bytes ← read_exact 4
  key_bytes ← read_exact (from_le_bytes key_len_bytes)
  key ← lift (from_utf8 (corrupted "Invalid UTF-8 in key") key_bytes)
  shard_bytes ← read_exact 8
  offset_bytes ← read_exact 8
  size_bytes ← read_exact 8
  hash_len_bytes ← read_exact 4
  hash_bytes ← read_exact (from_le_bytes hash_len_bytes)
  hash ← lift (from_utf8 (corrupted "Invalid UTF-8 in hash") hash_bytes)
  expires ← read_expiry has_ttl
  pure (
    key,
    record {
      shard = from_le_bytes shard_bytes;
      offset = from_le_bytes offset_bytes;
      size = from_le_bytes size_bytes;
      blake3 = hash;
      expires_at = expires;
    },
  )

pub read_entries : Bool → ℕ → Index → Reader Index
read_entries has_ttl zero ix = pure ix
read_entries has_ttl (suc n) ix = do
  entry ← read_snapshot_entry has_ttl
  read_entries has_ttl n (record { map = insert entry.0 entry.1 ix.map })

pub load_body : Bytes → Reader Index
unfolding read_entries
load_body magic =
    let has_ttl = magic == snapshot_magic in
    if not (magic == snapshot_magic_v2) && not has_ttl
    then fail (corrupted "Invalid snapshot magic")
    else (do
      num_entries_bytes ← read_exact 8
      read_entries has_ttl (from_le_bytes num_entries_bytes) new)

-- What follows the last entry is not read.
pub load_snapshot : Bytes → Result Index
unfolding load_body
load_snapshot file = elim ((do magic ← read_exact 8; load_body magic) file) [
  | ok (ix, rest) ↦ ok ix
  | err e ↦ err e
]
