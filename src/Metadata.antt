-- ===== src/Metadata.antt =====
-- src/coordinator/metadata.rs: the metadata of keys and volumes in RocksDB. The database and bincode are
-- interfaces; an error of the database is already the `Error::RocksDb` that it is turned into.
pub mod RoundTrip
use minikv.Prelude.{
  ℕ, ◌≡◌, ◌≢◌, ◌⊎◌, inl, inr, String, Bool, true, false, Option, none, some, List, [], ◌∷◌,
  if◌then◌else◌,
}
use Prim.Native.String.{◌++◌}
use minikv.Bytes.{Bytes, from_utf8}
use minikv.Errors.{Result, ok, err, internal, metadata_corrupted}
use minikv.Placement.{VolumeMetadata, is_healthy}

pub data ColumnFamily : Type 0 where
  keys volumes config : ColumnFamily

pub data KeyState : Type 0 where
  active tombstone : KeyState

pub record KeyMetadata : Type 0 where
  pub key : Bytes
  pub replicas : List Bytes
  pub size : ℕ
  pub blake3 : Bytes
  pub created_at : ℕ
  pub updated_at : ℕ
  pub state : KeyState

-- The calls of RocksDB: a write that succeeded is read back, and changes no other entry.
pub record RocksDb : Type 1 where
  pub Db : Type 0
  pub put_cf : ColumnFamily → Bytes → Bytes → Db → Db × Result (Unit {0})
  pub get_cf : ColumnFamily → Bytes → Db → Result (Option Bytes)
  pub delete_cf : ColumnFamily → Bytes → Db → Db × Result (Unit {0})
  pub iterator_cf : ColumnFamily → Db → List (Result (Bytes × Bytes))
  pub get-put :
      (cf : ColumnFamily) (key value : Bytes) (db : Db)
      → (put_cf cf key value db).1 ≡ ok tt
      → get_cf cf key (put_cf cf key value db).0 ≡ ok (some value)
  pub get-put_other :
      (cf : ColumnFamily) (key other value : Bytes) (db : Db)
      → (put_cf cf key value db).1 ≡ ok tt
      → key ≢ other
      → get_cf cf other (put_cf cf key value db).0 ≡ get_cf cf other db
  pub get-delete :
      (cf : ColumnFamily) (key : Bytes) (db : Db)
      → (delete_cf cf key db).1 ≡ ok tt
      → get_cf cf key (delete_cf cf key db).0 ≡ ok none
  pub get-delete_other :
      (cf : ColumnFamily) (key other : Bytes) (db : Db)
      → (delete_cf cf key db).1 ≡ ok tt
      → key ≢ other
      → get_cf cf other (delete_cf cf key db).0 ≡ get_cf cf other db

-- `bincode::serialize` and `bincode::deserialize` at a type. A failure carries its text.
pub record Bincode (A : Type 0) : Type 0 where
  pub serialize : A → String ⊎ Bytes
  pub deserialize : Bytes → String ⊎ A
  pub deserialize-serialize :
      (a : A) (bytes : Bytes) → serialize a ≡ inr bytes → deserialize bytes ≡ inr a

-- The libraries that the store calls.
pub record MetadataLibraries : Type 1 where
  pub rocks : RocksDb
  pub key_codec : Bincode KeyMetadata
  pub volume_codec : Bincode VolumeMetadata

-- Serialize, then write.
unfoldable pub put_encoded :
    {A : Type 0}
    → (rocks : RocksDb) → Bincode A
    → ColumnFamily
    → Bytes
    → A
    → rocks.Db
    → rocks.Db × Result (Unit {0})
put_encoded rocks codec cf key meta db = elim (codec.serialize meta) [
  | inl e ↦ (db, err (internal ("Serialize error: " ++ e)))
  | inr value ↦ rocks.put_cf cf key value db
]

unfoldable pub decoded : {A : Type 0} → Bincode A → Bytes → Result A
decoded codec bytes = elim (codec.deserialize bytes) [
  | inl e ↦ err (metadata_corrupted e)
  | inr meta ↦ ok meta
]

-- Read, then deserialize what is there.
unfoldable pub get_decoded :
    {A : Type 0}
    → (rocks : RocksDb) → Bincode A
    → ColumnFamily
    → Bytes
    → rocks.Db
    → Result (Option A)
unfolding decoded
get_decoded rocks codec cf key db = elim (rocks.get_cf cf key db) [
  | err e ↦ err e
  | ok none ↦ ok none
  | ok (some bytes) ↦ elim (decoded codec bytes) [ err e ↦ err e | ok meta ↦ ok (some meta) ]
]

-- The items of an iteration, each read by `f`, up to the first error.
unfoldable pub collect :
    {A : Type 0} → (Bytes × Bytes → Result A) → List (Result (Bytes × Bytes)) → Result (List A)
collect f [] = ok []
collect f (err e ∷ items) = err e
collect f (ok item ∷ items) =
    let rest = collect f items in
    elim (f item) [ err e ↦ err e | ok a ↦ elim rest [ err e ↦ err e | ok more ↦ ok (a ∷ more) ] ]

unfoldable pub healthy_volumes : List VolumeMetadata → List VolumeMetadata
unfolding is_healthy
healthy_volumes [] = []
healthy_volumes (v ∷ vs) =
    let rest = healthy_volumes vs in if is_healthy v.state then v ∷ rest else rest

module _ (libs : MetadataLibraries) where
  unfoldable pub put_key : KeyMetadata → libs.rocks.Db → libs.rocks.Db × Result (Unit {0})
  unfolding put_encoded
  put_key meta db = put_encoded libs.rocks libs.key_codec keys meta.key meta db

  unfoldable pub get_key : Bytes → libs.rocks.Db → Result (Option KeyMetadata)
  unfolding get_decoded
  get_key key db = get_decoded libs.rocks libs.key_codec keys key db

  unfoldable pub delete_key : Bytes → libs.rocks.Db → libs.rocks.Db × Result (Unit {0})
  delete_key key db = libs.rocks.delete_cf keys key db

  unfoldable pub list_keys : libs.rocks.Db → Result (List Bytes)
  unfolding collect
  list_keys db =
      collect (λ item. from_utf8 (metadata_corrupted "Invalid UTF-8") item.0)
        (libs.rocks.iterator_cf keys db)

  unfoldable pub put_volume : VolumeMetadata → libs.rocks.Db → libs.rocks.Db × Result (Unit {0})
  unfolding put_encoded
  put_volume meta db = put_encoded libs.rocks libs.volume_codec volumes meta.volume_id meta db

  unfoldable pub get_volume : Bytes → libs.rocks.Db → Result (Option VolumeMetadata)
  unfolding get_decoded
  get_volume volume_id db = get_decoded libs.rocks libs.volume_codec volumes volume_id db

  unfoldable pub list_volumes : libs.rocks.Db → Result (List VolumeMetadata)
  unfolding collect decoded
  list_volumes db =
      collect (λ item. decoded libs.volume_codec item.1) (libs.rocks.iterator_cf volumes db)

  unfoldable pub get_healthy_volumes : libs.rocks.Db → Result (List VolumeMetadata)
  unfolding list_volumes healthy_volumes
  get_healthy_volumes db = elim (list_volumes db) [
    | err e ↦ err e
    | ok all ↦ ok (healthy_volumes all)
  ]

  unfoldable pub put_config : Bytes → Bytes → libs.rocks.Db → libs.rocks.Db × Result (Unit {0})
  put_config key value db = libs.rocks.put_cf config key value db

  unfoldable pub get_config : Bytes → libs.rocks.Db → Result (Option Bytes)
  get_config key db = libs.rocks.get_cf config key db
