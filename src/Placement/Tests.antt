-- ===== src/Placement/Tests.antt =====
-- Three volumes of src/coordinator/placement.rs, two of them healthy.
use minikv.Prelude.{refl, ◌≡◌, List, [], ◌∷◌}
use minikv.Bytes.{from_le_bytes, Bytes}
use minikv.Samples.{key_a, key_b, zero_blake3}
use minikv.Placement.Disruption.{has, without, select_replicas-without}
use minikv.Placement.Ring.{ConsistentHashRing}
use minikv.Placement.{
  true, select_replicas, by_weight, place, VolumeMetadata, NodeState, alive, dead, hrw_hash,
}

abbrev volume : Bytes → NodeState → VolumeMetadata
volume id state = record {
  volume_id = id;
  address = [];
  grpc_address = [];
  state = state;
  shards = [];
  total_keys = 0;
  total_bytes = 0;
  free_bytes = 0;
  last_heartbeat = 0;
}

abbrev three_volumes : List VolumeMetadata
three_volumes = volume key_a alive ∷ volume key_b dead ∷ volume (0x63 ∷ []) alive ∷ []

abbrev nodes : List Bytes
nodes = key_a ∷ key_b ∷ (0x63 ∷ []) ∷ []

selected : has key_a (select_replicas zero_blake3 key_a nodes 2) ≡ true
unfolding select_replicas hrw_hash by_weight place from_le_bytes
selected = refl

select_replicas-without_example :
    has key_a (select_replicas zero_blake3 key_a (without key_b nodes) 2) ≡ true
select_replicas-without_example =
    select_replicas-without zero_blake3 key_a nodes 2 key_b key_a refl selected

abbrev ring : ConsistentHashRing
ring = record { num_shards = 4; shard_to_nodes = (1, key_a ∷ []) ∷ [] }
