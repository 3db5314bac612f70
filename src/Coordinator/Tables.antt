-- ===== src/Coordinator/Tables.antt =====
-- A database for the tests: an association list for each family, where a record is written as a list of
-- its numbers.
use minikv.Prelude.{
  ℕ, ◌≡◌, ◌≢◌, refl, sym, ap, ◌∙◌, arith, ◌⊎◌, inl, inr, String, false, Option, none, some, List,
  [], ◌∷◌, ◌++◌, length, nat_eq, list_eq, list_beq_iff, ◌==◌, eq_refl, take, drop, take-append,
  drop-append, if◌then◌else◌,
}
use minikv.Bytes.{Bytes}
use minikv.Text.{ascii}
use minikv.Errors.{Result, ok}
use minikv.HashMap.{HashMap, lookup, insert, remove}
use minikv.HashMap.Laws.{lookup-insert, lookup-remove}
use minikv.Placement.{VolumeMetadata}
use minikv.Metadata.{
  ColumnFamily, keys, volumes, config, KeyState, active, tombstone, KeyMetadata, RocksDb,
  MetadataLibraries,
}

-- A table for each family.
pub record Tables : Type 0 where
  pub of_keys : HashMap Bytes Bytes
  pub of_volumes : HashMap Bytes Bytes
  pub of_config : HashMap Bytes Bytes

abbrev pub table : ColumnFamily → Tables → HashMap Bytes Bytes
table keys db = db.of_keys
table volumes db = db.of_volumes
table config db = db.of_config

abbrev pub with_table : ColumnFamily → HashMap Bytes Bytes → Tables → Tables
with_table keys m db = record db { of_keys = m }
with_table volumes m db = record db { of_volumes = m }
with_table config m db = record db { of_config = m }

pub table-with_table :
    (cf : ColumnFamily) (m : HashMap Bytes Bytes) (db : Tables) → table cf (with_table cf m db) ≡ m
table-with_table keys m db = refl
table-with_table volumes m db = refl
table-with_table config m db = refl

abbrev pub read : ColumnFamily → Bytes → Tables → Result (Option Bytes)
read cf key db = ok (lookup key (table cf db))

pub read-insert :
    (cf : ColumnFamily) (key other value : Bytes) (db : Tables)
    → read cf other (with_table cf (insert key value (table cf db)) db)
      ≡ ok (if key == other then some value else lookup other (table cf db))
read-insert cf key other value db =
    ap ok
      (ap (lookup other) (table-with_table cf _ db) ∙ lookup-insert key other value (table cf db))

pub read-remove :
    (cf : ColumnFamily) (key other : Bytes) (db : Tables)
    → read cf other (with_table cf (remove key (table cf db)) db)
      ≡ ok (if key == other then none else lookup other (table cf db))
read-remove cf key other db =
    ap ok (ap (lookup other) (table-with_table cf _ db) ∙ lookup-remove key other (table cf db))

pub differs : (key other : Bytes) → key ≢ other → (key == other) ≡ false
differs key other apart = ground (arith, list_beq_iff key other, apart)

pub entries : HashMap Bytes Bytes → List (Result (Bytes × Bytes))
entries [] = []
entries (e ∷ m) = ok e ∷ entries m

abbrev pub table_rocks : RocksDb
table_rocks = record {
  Db = Tables;
  put_cf = λ cf key value db. (with_table cf (insert key value (table cf db)) db, ok tt);
  get_cf = read;
  delete_cf = λ cf key db. (with_table cf (remove key (table cf db)) db, ok tt);
  iterator_cf = λ cf db. entries (table cf db);
  get-put = λ cf key value db done. read-insert cf key key value db ∙ rw (eq_refl key) refl;
  get-put_other = λ cf key other value db done apart.
      read-insert cf key other value db ∙ rw (differs key other apart) refl;
  get-delete = λ cf key db done. read-remove cf key key db ∙ rw (eq_refl key) refl;
  get-delete_other =
      λ cf key other db done apart. read-remove cf key other db ∙ rw (differs key other apart) refl;
}

abbrev pub state_code : KeyState → ℕ
state_code active = 0
state_code tombstone = 1

abbrev pub key_record : KeyMetadata → String ⊎ Bytes
key_record meta = elim meta.replicas [
  | [] ↦ inr (
      state_code meta.state
      ∷ meta.size
      ∷ meta.created_at
      ∷ meta.updated_at
      ∷ length meta.key
      ∷ (meta.key ++ meta.blake3))
  | r ∷ rs ↦ inl "unsupported"
]

abbrev pub key_of_record : Bytes → String ⊎ KeyMetadata
key_of_record (c ∷ size ∷ created ∷ updated ∷ n ∷ rest) = inr (record {
  key = take n rest;
  replicas = [];
  size = size;
  blake3 = drop n rest;
  created_at = created;
  updated_at = updated;
  state = if c == 0 then active else tombstone;
})
key_of_record _ = inl "short"

pub state_code-read : (st : KeyState) → (if state_code st == 0 then active else tombstone) ≡ st
state_code-read active = refl
state_code-read tombstone = refl

abbrev pub fields_of : KeyMetadata → Bytes
fields_of meta =
    state_code meta.state
    ∷ meta.size
    ∷ meta.created_at
    ∷ meta.updated_at
    ∷ length meta.key
    ∷ (meta.key ++ meta.blake3)

pub fields_read :
    (meta : KeyMetadata) → meta.replicas ≡ [] → key_of_record (fields_of meta) ≡ inr meta
fields_read meta none_yet = ground (
  arith,
  none_yet,
  state_code-read meta.state,
  take-append meta.key meta.blake3,
  drop-append meta.key meta.blake3,
)

pub record_read :
    (replicas : List Bytes) (meta : KeyMetadata) (bytes : Bytes)
    → meta.replicas ≡ replicas
    → key_record meta ≡ inr bytes
    → key_of_record bytes ≡ inr meta
record_read [] meta bytes same e =
    let written : fields_of meta ≡ bytes = ground (arith, e, same) in
    ap key_of_record (sym written) ∙ fields_read meta same
record_read (r ∷ rs) meta bytes same e = ground (arith, e, same)

pub key_record-read :
    (meta : KeyMetadata) (bytes : Bytes)
    → key_record meta ≡ inr bytes
    → key_of_record bytes ≡ inr meta
key_record-read meta bytes e = record_read meta.replicas meta bytes refl e

pub never_read :
    (v : VolumeMetadata) (bytes : Bytes)
    → ◌≡◌ {A = String ⊎ Bytes} (inl "unsupported") (inr bytes)
    → ◌≡◌ {A = String ⊎ VolumeMetadata} (inl "unsupported") (inr v)
never_read v bytes e = ground (arith, e)

abbrev pub table_libraries : MetadataLibraries
table_libraries = record {
  rocks = table_rocks;
  key_codec = record {
    serialize = key_record;
    deserialize = key_of_record;
    deserialize-serialize = key_record-read;
  };
  volume_codec = record {
    serialize = λ v. inl "unsupported";
    deserialize = λ b. inl "unsupported";
    deserialize-serialize = λ v b e. never_read v b e;
  };
}

abbrev pub no_tables : Tables
no_tables = record { of_keys = []; of_volumes = []; of_config = [] }

abbrev pub two_keys : Tables
two_keys = record {
  of_keys = (ascii "a", []) ∷ (ascii "b", []) ∷ [];
  of_volumes = [];
  of_config = [];
}

abbrev pub objects : HashMap Bytes Bytes
objects = (ascii "a", ascii "hello") ∷ (ascii "b", ascii "world") ∷ []
