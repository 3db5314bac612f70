-- ===== src/Coordinator/Objects.antt =====
-- src/coordinator/http.rs: the handlers of single objects and keys, and the readiness probe.
use minikv.Prelude.{
  ℕ, Bool, true, false, not, ◌&&◌, ◌||◌, Option, none, some, List, [], ◌∷◌, ◌++◌, length,
  if◌then◌else◌,
}
use minikv.Bytes.{Bytes}
use minikv.Text.{ascii, decimal, parse_u64}
use minikv.Errors.{Result, ok, err}
use minikv.Storage.{KvStore}
use minikv.External.{Blake3}
use minikv.Placement.{select_volumes}
use minikv.Metadata.{MetadataLibraries, get_healthy_volumes}
use minikv.Coordinator.{HttpResponse, KeyChangeEvent}

-- `unwrap_or_default` on a list.
abbrev pub or_empty {ℓ} : {A : Type ℓ} → Result (List A) → List A
or_empty (ok as_found) = as_found
or_empty (err e) = []

abbrev pub full_key : Bytes → Bytes → Bytes
full_key bucket key = bucket ++ ascii "/" ++ key

-- The prepare phase: each volume is asked in turn, and the answer is simulated.
unfoldable pub prepare : List Bytes → Bool
prepare [] = true
prepare (volume_id ∷ rest) =
    let simulated_prepare = true in
    let others = prepare rest in if not simulated_prepare then false else others

abbrev pub ttl_info : Option ℕ → Bytes
ttl_info none = []
ttl_info (some t) = ascii ", TTL: " ++ decimal t ++ ascii "s"

module _ (store : KvStore) (libs : MetadataLibraries) (b3 : Blake3) where
  -- `ttl_header` is the text of the header X-Minikv-TTL, and `replicas` that of the placement manager.
  unfoldable pub s3_put_object :
      ℕ
      → ℕ
      → Bytes
      → Bytes
      → Option Bytes
      → Bytes
      → libs.rocks.Db
      → store.State
      → store.State × KeyChangeEvent × HttpResponse
  unfolding prepare get_healthy_volumes parse_u64
  s3_put_object timestamp replicas bucket key ttl_header body db s =
      let name = full_key bucket key in
      let ttl_secs : Option ℕ = elim ttl_header [ some t ↦ parse_u64 t | none ↦ none ] in
      let volumes = or_empty (get_healthy_volumes libs db) in
      let target_volumes = or_empty (select_volumes b3 replicas name volumes) in
      let event : KeyChangeEvent = record {
        event = ascii "put";
        key = name;
        tenant = some (ascii "default");
        timestamp = timestamp;
      } in
      let failure : HttpResponse = record {
        status = 500;
        body = ascii "PUT S3 " ++ name ++ ascii " failed: prepare phase error (2PC)";
      } in
      let success : HttpResponse = record {
        status = 200;
        body =
            ascii "PUT S3 "
            ++ name
            ++ ascii " committed via 2PC ("
            ++ decimal (length body)
            ++ ascii " bytes"
            ++ ttl_info ttl_secs
            ++ ascii ")";
      } in
      (store.put name body s, event, (if not (prepare target_volumes) then failure else success))

  unfoldable pub s3_get_object : Bytes → Bytes → store.State → HttpResponse
  s3_get_object bucket key s = elim (store.get (full_key bucket key) s) [
    | some data_found ↦ record { status = 200; body = data_found }
    | none ↦ record {
      status = 404;
      body = ascii "S3 object " ++ full_key bucket key ++ ascii " not found";
    }
  ]

  -- `put_key`: neither the body nor the store is touched.
  unfoldable pub put_key : ℕ → Bytes → libs.rocks.Db → HttpResponse
  unfolding prepare get_healthy_volumes
  put_key replicas key db =
      let volumes = or_empty (get_healthy_volumes libs db) in
      let target_volumes = or_empty (select_volumes b3 replicas key volumes) in
      if not (prepare target_volumes)
      then record {
        status = 500;
        body = ascii "PUT " ++ key ++ ascii " failed: prepare phase error (2PC)";
      }
      else record { status = 200; body = ascii "PUT " ++ key ++ ascii " committed via 2PC" }

  -- `get_key`
  unfoldable pub get_key : Bytes → HttpResponse
  get_key key = record {
    status = 200;
    body = ascii "Value for key " ++ key ++ ascii " (fetched from volume)";
  }

  -- `delete_key`
  unfoldable pub delete_key : Bytes → HttpResponse
  delete_key key = record { status = 200; body = ascii "DELETE " ++ key ++ ascii " succeeded" }

-- The fields of the readiness probe.
pub record Readiness : Type 0 where
  pub status : ℕ
  pub ready : Bool
  pub healthy_volumes : ℕ
  pub is_leader : Bool
  pub reason : Option Bytes

abbrev pub is_empty {ℓ} : {A : Type ℓ} → List A → Bool
is_empty [] = true
is_empty (a ∷ rest) = false

-- `is_leader` and `peers` are what the Raft node says.
unfoldable pub health_ready :
    (libs : MetadataLibraries) → Bool → List Bytes → libs.rocks.Db → Readiness
unfolding get_healthy_volumes
health_ready libs is_leader peers db =
    let volumes = or_empty (get_healthy_volumes libs db) in
    let has_leader = is_leader || not (is_empty peers) in
    if not (is_empty volumes) && has_leader
    then record {
      status = 200;
      ready = true;
      healthy_volumes = length volumes;
      is_leader = is_leader;
      reason = none;
    }
    else record {
      status = 503;
      ready = false;
      healthy_volumes = length volumes;
      is_leader = is_leader;
      reason =
          some (if is_empty volumes then ascii "No healthy volumes" else ascii "No Raft leader");
    }
