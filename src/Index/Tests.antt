-- ===== src/Index/Tests.antt =====
-- The index of src/volume/index.rs with two keys, one of them with an expiry.
use minikv.Prelude.{nat_eq, list_eq, ℕ, ◌≡◌, refl, arith, Option, some, none, [], ◌∷◌}
use minikv.Errors.{ok}
use minikv.HashMap.{HasDistinctKeys, lookup}
use minikv.Samples.{key_a, key_b, key_a_utf8, key_b_utf8}
use minikv.Index.{
  false, true, Index, BlobLocation, contains, len, is_empty, iter, keys, clear, save_snapshot,
  load_snapshot,
}
use minikv.Index.Snapshot.{load_snapshot-save_snapshot}

abbrev location : Option ℕ → BlobLocation
location expires_at = record {
  shard = 0;
  offset = 12;
  size = 3;
  blake3 = key_a;
  expires_at = expires_at;
}

abbrev two_keys : Index
two_keys = record { map = (key_a, location (some 50)) ∷ (key_b, location none) ∷ [] }

two_keys-HasDistinctKeys : HasDistinctKeys two_keys.map
unfolding lookup
two_keys-HasDistinctKeys = (refl, (refl, tt))

load_snapshot-save_snapshot_example : load_snapshot (save_snapshot two_keys) ≡ ok two_keys
load_snapshot-save_snapshot_example =
    load_snapshot-save_snapshot two_keys
      (
        record {
          key_utf8 = key_a_utf8;
          key_short = omega arith;
          shard_fits = omega arith;
          offset_fits = omega arith;
          size_fits = omega arith;
          hash_utf8 = key_a_utf8;
          hash_short = omega arith;
          expiry_fits = (omega arith, omega arith);
        },
        (
          record {
            key_utf8 = key_b_utf8;
            key_short = omega arith;
            shard_fits = omega arith;
            offset_fits = omega arith;
            size_fits = omega arith;
            hash_utf8 = key_a_utf8;
            hash_short = omega arith;
            expiry_fits = tt;
          },
          tt,
        ),
      )
      two_keys-HasDistinctKeys (omega arith)

counted :
    (len two_keys ≡ 2) × (keys two_keys ≡ key_a ∷ key_b ∷ []) × (contains key_b two_keys ≡ true)
unfolding lookup
counted = (refl, refl, refl)

cleared :
    (is_empty (clear two_keys) ≡ true)
    × (contains key_b (clear two_keys) ≡ false)
    × (iter (clear two_keys) ≡ [])
unfolding lookup
cleared = (refl, refl, refl)
