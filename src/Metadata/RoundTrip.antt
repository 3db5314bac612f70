-- ===== src/Metadata/RoundTrip.antt =====
-- What src/coordinator/metadata.rs reads back of what it wrote.
use minikv.Prelude.{
  ◌≡◌, ◌≢◌, refl, arith, inl, inr, Sum-cases, some, none, nat_eq, list_eq, ◌==◌, list_beq_iff,
  Bool-cases, if◌then◌else◌,
}
use minikv.Bytes.{Bytes}
use minikv.Errors.{ok}
use minikv.Metadata.{
  KeyMetadata, RocksDb, Bincode, ColumnFamily, keys, MetadataLibraries, put_encoded, get_decoded,
  decoded, put_key, get_key, delete_key,
}

get_decoded-found :
    {A : Type 0} (rocks : RocksDb) (codec : Bincode A) (cf : ColumnFamily) (key bytes : Bytes)
    (meta : A) (db : rocks.Db)
    → rocks.get_cf cf key db ≡ ok (some bytes)
    → codec.deserialize bytes ≡ inr meta
    → get_decoded rocks codec cf key db ≡ ok (some meta)
unfolding get_decoded decoded
get_decoded-found rocks codec cf key bytes meta db found read = rw (found, read, get_decoded) refl

get_decoded-put_encoded :
    {A : Type 0} (rocks : RocksDb) (codec : Bincode A) (cf : ColumnFamily) (key : Bytes) (meta : A)
    (db : rocks.Db)
    → (put_encoded rocks codec cf key meta db).1 ≡ ok tt
    → get_decoded rocks codec cf key (put_encoded rocks codec cf key meta db).0 ≡ ok (some meta)
unfolding put_encoded
get_decoded-put_encoded rocks codec cf key meta db h = elim (Sum-cases (codec.serialize meta)) [
  | inl (e, failed) ↦ ground (arith, failed, h)
  | inr (bytes, made) ↦
      let written : (rocks.put_cf cf key bytes db).1 ≡ ok tt = ground (arith, made, h) in
      rw (made, put_encoded)
        (get_decoded-found rocks codec cf key bytes meta _ (rocks.get-put cf key bytes db written)
          (codec.deserialize-serialize meta bytes made))
]

get_cf-put_encoded_other :
    {A : Type 0} (rocks : RocksDb) (codec : Bincode A) (cf : ColumnFamily) (key other : Bytes)
    (meta : A) (db : rocks.Db)
    → (put_encoded rocks codec cf key meta db).1 ≡ ok tt
    → key ≢ other
    → rocks.get_cf cf other (put_encoded rocks codec cf key meta db).0 ≡ rocks.get_cf cf other db
unfolding put_encoded
get_cf-put_encoded_other rocks codec cf key other meta db h differ =
    elim (Sum-cases (codec.serialize meta)) [
      | inl (e, failed) ↦ ground (arith, failed, h)
      | inr (bytes, made) ↦
          let written : (rocks.put_cf cf key bytes db).1 ≡ ok tt = ground (arith, made, h) in
          rw (made, put_encoded) (rocks.get-put_other cf key other bytes db written differ)
    ]

get_decoded-absent :
    {A : Type 0} (rocks : RocksDb) (codec : Bincode A) (cf : ColumnFamily) (key : Bytes)
    (db : rocks.Db)
    → rocks.get_cf cf key db ≡ ok none
    → get_decoded rocks codec cf key db ≡ ok none
unfolding get_decoded
get_decoded-absent rocks codec cf key db absent = rw (absent, get_decoded) refl

get_decoded_same :
    {A : Type 0} (rocks : RocksDb) (codec : Bincode A) (cf : ColumnFamily) (key : Bytes)
    (db after : rocks.Db)
    → rocks.get_cf cf key after ≡ rocks.get_cf cf key db
    → get_decoded rocks codec cf key after ≡ get_decoded rocks codec cf key db
unfolding get_decoded
get_decoded_same rocks codec cf key db after e = rw (e, get_decoded) refl

module _ (libs : MetadataLibraries) where
  -- Once the metadata of a key is written without an error, reading the key gives it, and reading
  -- another key gives what it gave before.
  pub get_key-put_key :
      (meta : KeyMetadata) (other : Bytes) (db : libs.rocks.Db)
      → (put_key libs meta db).1 ≡ ok tt
      → get_key libs other (put_key libs meta db).0
        ≡ (if meta.key == other then ok (some meta) else get_key libs other db)
  unfolding get_key put_key
  get_key-put_key meta other db h = elim (Bool-cases (meta.key == other)) [
    | inl same ↦ rw same (
        rw (← (list_beq_iff meta.key other).0 same)
          (get_decoded-put_encoded libs.rocks libs.key_codec keys meta.key meta db h))
    | inr differ ↦ rw differ (
        get_decoded_same libs.rocks libs.key_codec keys other db _ (
          get_cf-put_encoded_other libs.rocks libs.key_codec keys meta.key other meta db h
            (λ e. ground (arith, differ, (list_beq_iff meta.key other).1 e))))
  ]

  -- Once a key is deleted without an error, it is not found, and the other keys are as before.
  pub get_key-delete_key :
      (key other : Bytes) (db : libs.rocks.Db)
      → (delete_key libs key db).1 ≡ ok tt
      → get_key libs other (delete_key libs key db).0
        ≡ (if key == other then ok none else get_key libs other db)
  unfolding get_key delete_key
  get_key-delete_key key other db h = elim (Bool-cases (key == other)) [
    | inl same ↦
        rw (same, ← (list_beq_iff key other).0 same)
          (get_decoded-absent libs.rocks libs.key_codec keys key _
            (libs.rocks.get-delete keys key db h))
    | inr differ ↦ rw differ (
        get_decoded_same libs.rocks libs.key_codec keys other db _ (
          libs.rocks.get-delete_other keys key other db h
            (λ e. ground (arith, differ, (list_beq_iff key other).1 e))))
  ]
