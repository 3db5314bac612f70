-- ===== src/Placement/Ring.antt =====
-- src/common/hash.rs: `ConsistentHashRing`, and src/coordinator/placement.rs: `PlacementManager` over it.
use minikv.Prelude.{
  nat_beq_iff, zero, suc, ℕ, ◌+◌, ◌<◌, ◌≡◌, refl, ap, ◌∙◌, arith, Bool, false, ◌||◌, ◌&&◌,
  Bool-cases, inl, inr, Option, some, List, [], ◌∷◌, ◌++◌, length, min, ltb, leb, nat_eq, list_eq,
  ◌==◌, if◌then◌else◌,
}
use minikv.Bytes.{Bytes}
use minikv.Text.{ascii, decimal}
use minikv.External.{Blake3}
use minikv.HashMap.{HashMap, lookup, insert}
use minikv.HashMap.Laws.{lookup-insert}
use minikv.Placement.{VolumeMetadata, healthy, shard_key, select_replicas}
use minikv.Placement.Replicas.{length-select_replicas}

pub record ConsistentHashRing : Type 0 where
  pub num_shards : ℕ
  pub shard_to_nodes : HashMap ℕ (List Bytes)

pub record PlacementManager : Type 0 where
  pub ring : ConsistentHashRing
  pub replicas : ℕ
  pub num_shards : ℕ

unfoldable pub new_ring : ℕ → ConsistentHashRing
new_ring num_shards = record { num_shards = num_shards; shard_to_nodes = [] }

unfoldable pub new : ℕ → ℕ → PlacementManager
unfolding new_ring
new num_shards replicas = record {
  ring = new_ring num_shards;
  replicas = replicas;
  num_shards = num_shards;
}

unfoldable pub assign_shard : ℕ → List Bytes → ConsistentHashRing → ConsistentHashRing
assign_shard shard nodes ring = record ring {
  shard_to_nodes = insert shard nodes ring.shard_to_nodes;
}

unfoldable pub get_shard_nodes : ℕ → ConsistentHashRing → Option (List Bytes)
get_shard_nodes shard ring = lookup shard ring.shard_to_nodes

-- `format!("shard-{}", shard)`
abbrev pub shard_name : ℕ → Bytes
shard_name shard = ascii "shard-" ++ decimal shard

unfoldable pub contains_node : Bytes → List Bytes → Bool
contains_node node [] = false
contains_node node (n ∷ nodes) = (n == node) || contains_node node nodes

unfoldable pub shards_of : Bytes → HashMap ℕ (List Bytes) → List ℕ
unfolding contains_node
shards_of node [] = []
shards_of node ((shard, nodes) ∷ m) =
    let rest = shards_of node m in if contains_node node nodes then shard ∷ rest else rest

-- In the order of the map.
unfoldable pub shards_for_node : Bytes → ConsistentHashRing → List ℕ
unfolding shards_of
shards_for_node node ring = shards_of node ring.shard_to_nodes

module _ (b3 : Blake3) where
  -- For a number of shards above 0: the source panics at 0.
  unfoldable pub get_nodes : Bytes → ConsistentHashRing → Option (List Bytes)
  get_nodes key ring = lookup (shard_key b3 key ring.num_shards) ring.shard_to_nodes

  -- The loop of `rebalance`, with the shards that it has left.
  unfoldable pub rebalance_from : ℕ → ℕ → List Bytes → ℕ → ConsistentHashRing → ConsistentHashRing
  unfolding assign_shard
  rebalance_from zero shard nodes replicas ring = ring
  rebalance_from (suc left) shard nodes replicas ring =
      rebalance_from left (shard + 1) nodes replicas
        (assign_shard shard (select_replicas b3 (shard_name shard) nodes replicas) ring)

  unfoldable pub rebalance : List Bytes → ℕ → ConsistentHashRing → ConsistentHashRing
  unfolding rebalance_from
  rebalance available_nodes replicas ring =
      rebalance_from ring.num_shards 0 available_nodes replicas ring

  -- The methods of `PlacementManager`.
  unfoldable pub get_shard : Bytes → PlacementManager → ℕ
  get_shard key m = shard_key b3 key m.num_shards

  unfoldable pub rebalance_volumes : List VolumeMetadata → PlacementManager → PlacementManager
  unfolding rebalance healthy
  rebalance_volumes volumes m = record m { ring = rebalance (healthy volumes) m.replicas m.ring }

  unfoldable pub get_shard_volumes : ℕ → PlacementManager → Option (List Bytes)
  unfolding get_shard_nodes
  get_shard_volumes shard m = get_shard_nodes shard m.ring

  rebalance_from_lem :
      (left shard : ℕ) (nodes : List Bytes) (replicas : ℕ) (ring : ConsistentHashRing) (i : ℕ)
      → get_shard_nodes i (rebalance_from left shard nodes replicas ring) ≡ (
          if leb shard i && ltb i (shard + left)
          then some (select_replicas b3 (shard_name i) nodes replicas)
          else get_shard_nodes i ring)
  unfolding rebalance_from get_shard_nodes assign_shard
  rebalance_from_lem zero shard nodes replicas ring i = ground arith
  rebalance_from_lem (suc left) shard nodes replicas ring i =
      let here = select_replicas b3 (shard_name shard) nodes replicas in
      rebalance_from_lem left (shard + 1) nodes replicas (assign_shard shard here ring) i
      ∙ (elim (Bool-cases (shard == i)) [
        | inl same ↦
            let e : shard ≡ i = (nat_beq_iff shard i).0 same in
            let there : here ≡ select_replicas b3 (shard_name i) nodes replicas =
              ap (λ j. select_replicas b3 (shard_name j) nodes replicas) e in
            ground (arith, lookup-insert shard i here ring.shard_to_nodes, same, there, e)
        | inr other ↦ ground (arith, lookup-insert shard i here ring.shard_to_nodes, other)
      ])

  rebalance_from-num_shards :
      (left shard : ℕ) (nodes : List Bytes) (replicas : ℕ) (ring : ConsistentHashRing)
      → (rebalance_from left shard nodes replicas ring).num_shards ≡ ring.num_shards
  unfolding rebalance_from assign_shard
  rebalance_from-num_shards zero shard nodes replicas ring = refl
  rebalance_from-num_shards (suc left) shard nodes replicas ring =
      rebalance_from-num_shards left (shard + 1) nodes replicas (assign_shard shard _ ring)

  -- After a rebalancing of a ring that has shards, every key has nodes: those that are selected for the
  -- name of its shard, as many as there are replicas, or all where the nodes are fewer.
  pub get_nodes-rebalance :
      (key : Bytes) (nodes : List Bytes) (replicas : ℕ) (ring : ConsistentHashRing)
      → 0 < ring.num_shards
      → (get_nodes key (rebalance nodes replicas ring)
          ≡ some
              (select_replicas b3 (shard_name (shard_key b3 key ring.num_shards)) nodes replicas))
        × (length
              (select_replicas b3 (shard_name (shard_key b3 key ring.num_shards)) nodes replicas)
            ≡ min replicas (length nodes))
  unfolding get_nodes rebalance get_shard_nodes shard_key
  get_nodes-rebalance key nodes replicas ring some_shards =
      let shard = shard_key b3 key ring.num_shards in
      let below : shard < ring.num_shards = omega arith in
      (
        ap
              (λ n.
                lookup (shard_key b3 key n)
                  (rebalance_from ring.num_shards 0 nodes replicas ring).shard_to_nodes)
              (rebalance_from-num_shards ring.num_shards 0 nodes replicas ring)
            ∙ rebalance_from_lem ring.num_shards 0 nodes replicas ring shard
            ∙ ground (arith, below),
        length-select_replicas b3 _ nodes replicas,
      )
