-- ===== src/Volume.antt =====
-- src/volume/grpc.rs, src/volume/http.rs and src/volume/compaction.rs: what a volume answers to its
-- coordinators, over its blob store. The mutex is held for a whole call.
use minikv.Prelude.{
  ℕ, ◌≡◌, arith, Bool, true, false, List, [], String, ◌==◌, nat_eq, list_eq, length, replicate,
  if◌then◌else◌,
}
use minikv.Errors.{Result}
use minikv.Bytes.{Bytes}
use minikv.Text.{ascii}
use minikv.External.{Rename}
use minikv.Blob.Format.{Segments}
use minikv.Blob.Store.{Libraries, BlobStore}
use minikv.Blob.Store
use minikv.Blob.Open.{compact}

pub record PrepareRequest : Type 0 where
  pub key : Bytes
  pub upload_id : Bytes
  pub expected_size : ℕ
  pub expected_blake3 : Bytes

pub record CommitRequest : Type 0 where
  pub upload_id : Bytes
  pub key : Bytes

-- `PrepareResponse`, `CommitResponse` and `DeleteResponse`.
pub record Acknowledged : Type 0 where
  pub is_ok : Bool
  pub error : Bytes

pub record PingResponse : Type 0 where
  pub volume_id : Bytes
  pub uptime_secs : ℕ
  pub total_keys : ℕ
  pub total_bytes : ℕ

pub record StatsResponse : Type 0 where
  pub total_keys : ℕ
  pub total_bytes : ℕ
  pub free_bytes : ℕ
  pub shards : List ℕ

pub record Location : Type 0 where
  pub size : ℕ
  pub blake3 : Bytes

abbrev done : Acknowledged
done = record { is_ok = true; error = [] }

-- A status `Unimplemented`, with its text.
abbrev pub Unimplemented : Type 0
Unimplemented = Bytes

unfoldable pub pull : Unimplemented
pull = ascii "Pull not implemented"

unfoldable pub ping : PingResponse
ping = record { volume_id = ascii "vol-1"; uptime_secs = 0; total_keys = 0; total_bytes = 0 }

unfoldable pub stats : StatsResponse
stats = record { total_keys = 0; total_bytes = 0; free_bytes = 0; shards = [] }

module _ (libs : Libraries) where
  unfoldable pub prepare : PrepareRequest → BlobStore libs → BlobStore libs × Acknowledged
  prepare inner store =
      if length inner.key == 0
      then (store, record { is_ok = false; error = ascii "key cannot be empty" })
      else (store, done)

  unfoldable pub commit : CommitRequest → BlobStore libs → BlobStore libs × Acknowledged
  commit inner store = (store, done)

  -- With the identifier of the upload.
  unfoldable pub abort : Bytes → BlobStore libs → BlobStore libs × Bool
  abort upload_id store = (store, true)

  -- The store's delete gives no error.
  unfoldable pub delete : Bytes → BlobStore libs → BlobStore libs × Acknowledged
  delete key store = (Store.delete libs key store, done)

  unfoldable pub get_location : BlobStore libs → Location
  get_location store = record { size = 0; blake3 = replicate 32 0 }

  unfoldable pub compact_store :
      Rename
      → List String
      → Segments
      → BlobStore libs
      → BlobStore libs × Segments × Result (Bytes × Bytes)
  unfolding compact
  compact_store fs data_path temp store = compact libs fs data_path temp store

  -- An upload that is prepared and committed leaves the store as it was, whatever its key, and the commit
  -- is acknowledged also where the key was refused.
  pub commit-prepare :
      (req : PrepareRequest) (store : BlobStore libs)
      → let (prepared, first) = prepare req store in
        let (committed, second) =
          commit (record { upload_id = req.upload_id; key = req.key }) prepared in
        (committed ≡ store) × (second.is_ok ≡ true)
  unfolding prepare commit
  commit-prepare req store = ground arith
