-- ===== src/Placement.antt =====
-- src/common/hash.rs and src/coordinator/placement.rs: which volumes keep the replicas of a key. Names
-- of nodes are their bytes.
pub mod Replicas
pub mod Disruption
pub mod Ring
mod Tests
use minikv.Prelude.{
  ℕ, ◌%◌, Bool, true, false, Option, List, [], ◌∷◌, ◌++◌, map, ltb, leb, length, take,
  if◌then◌else◌,
}
use minikv.Errors.{Result, ok, err, no_healthy_volumes, insufficient_replicas}
use minikv.Bytes.{Bytes, from_le_bytes}
use minikv.External.{Blake3}

pub data NodeState : Type 0 where
  alive suspect dead draining : NodeState

unfoldable pub is_healthy : NodeState → Bool
is_healthy alive = true
is_healthy suspect = false
is_healthy dead = false
is_healthy draining = false

unfoldable pub can_write : NodeState → Bool
can_write alive = true
can_write suspect = false
can_write dead = false
can_write draining = false

unfoldable pub can_read : NodeState → Bool
can_read alive = true
can_read suspect = false
can_read dead = false
can_read draining = true

pub record VolumeMetadata : Type 0 where
  pub volume_id : Bytes
  pub address : Bytes
  pub grpc_address : Bytes
  pub state : NodeState
  pub shards : List ℕ
  pub total_keys : ℕ
  pub total_bytes : ℕ
  pub free_bytes : ℕ
  pub last_heartbeat : ℕ

-- A place before the first node that is no heavier: sorting from the last node on, this is the stable
-- sort by falling weight.
unfoldable pub place : (Bytes → ℕ) → Bytes → List Bytes → List Bytes
place weight x [] = x ∷ []
place weight x (y ∷ ys) =
    let rest = place weight x ys in if leb (weight y) (weight x) then x ∷ y ∷ ys else y ∷ rest

unfoldable pub by_weight : (Bytes → ℕ) → List Bytes → List Bytes
unfolding place
by_weight weight [] = []
by_weight weight (x ∷ xs) = place weight x (by_weight weight xs)

unfoldable pub healthy : List VolumeMetadata → List Bytes
unfolding is_healthy
healthy [] = []
healthy (v ∷ vs) = let rest = healthy vs in if is_healthy v.state then v.volume_id ∷ rest else rest

module _ (b3 : Blake3) where
  -- `hash % num_shards`, for a number of shards above 0: the source panics at 0.
  unfoldable pub shard_key : Bytes → ℕ → ℕ
  shard_key key num_shards = from_le_bytes (take 8 (b3.digest key)) % num_shards

  abbrev pub weight : Bytes → Bytes → ℕ
  weight key node = from_le_bytes (take 8 (b3.digest (key ++ node)))

  unfoldable pub hrw_hash : Bytes → List Bytes → List Bytes
  unfolding by_weight
  hrw_hash key nodes = by_weight (weight key) nodes

  unfoldable pub select_replicas : Bytes → List Bytes → ℕ → List Bytes
  unfolding hrw_hash
  select_replicas key nodes n = take n (hrw_hash key nodes)

  -- The replicas among the healthy volumes.
  unfoldable pub chosen : ℕ → Bytes → List Bytes → Result (List Bytes)
  unfolding select_replicas
  chosen replicas key [] = err no_healthy_volumes
  chosen replicas key (x ∷ xs) =
      let selected = select_replicas key (x ∷ xs) replicas in
      if ltb (length selected) replicas
      then err (insufficient_replicas replicas (length selected))
      else ok selected

  -- `PlacementManager::select_volumes`, for its number of replicas.
  unfoldable pub select_volumes : ℕ → Bytes → List VolumeMetadata → Result (List Bytes)
  unfolding chosen healthy
  select_volumes replicas key [] = err no_healthy_volumes
  select_volumes replicas key (v ∷ vs) = chosen replicas key (healthy (v ∷ vs))
