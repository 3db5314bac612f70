-- ===== src/Placement/Replicas.antt =====
-- What src/common/hash.rs and src/coordinator/placement.rs promise of the replicas of a key.
use minikv.Prelude.{
  ap, ◌∙◌, min, Bool-cases, inl, inr, ◌+◌, ℕ, ◌≤◌, ◌<◌, ◌≡◌, refl, arith, List, [], ◌∷◌, length,
  take, length-take, leb,
}
use minikv.Errors.{ok, err, no_healthy_volumes, insufficient_replicas}
use minikv.Bytes.{Bytes}
use minikv.External.{Blake3}
use minikv.Placement.{
  VolumeMetadata, place, by_weight, healthy, weight, hrw_hash, select_replicas, chosen,
  select_volumes,
}
use mathlib.Core.List.{Perm}
use mathlib.Core.List.Perm

-- No node is heavier than the one before it.
abbrev pub IsFalling : (Bytes → ℕ) → List Bytes → Type 0
IsFalling w [] = Unit {0}
IsFalling w (x ∷ []) = Unit {0}
IsFalling w (x ∷ y ∷ l) = (w y ≤ w x) × IsFalling w (y ∷ l)

place-Perm : (w : Bytes → ℕ) (x : Bytes) (l : List Bytes) → Perm (place w x l) (x ∷ l)
unfolding place
place-Perm w x [] = Perm.refl (x ∷ [])
place-Perm w x (y ∷ l) = elim (Bool-cases (leb (w y) (w x))) [
  | inl front ↦ rw front (Perm.refl (x ∷ y ∷ l))
  | inr behind ↦ rw behind (Perm.trans (Perm.cons y (place-Perm w x l)) (Perm.swap x y l))
]

place-IsFalling :
    (w : Bytes → ℕ) (x : Bytes) (l : List Bytes) → IsFalling w l → IsFalling w (place w x l)
unfolding place
place-IsFalling w x [] h = tt
place-IsFalling w x (y ∷ []) h = ground arith
place-IsFalling w x (y ∷ z ∷ l) h = ground (arith, place-IsFalling w x (z ∷ l) h.1)

length-place : (w : Bytes → ℕ) (x : Bytes) (l : List Bytes) → length (place w x l) ≡ length l + 1
unfolding place
length-place w x [] = omega arith
length-place w x (y ∷ l) = ground (arith, length-place w x l)

length-by_weight : (w : Bytes → ℕ) (l : List Bytes) → length (by_weight w l) ≡ length l
unfolding by_weight
length-by_weight w [] = refl
length-by_weight w (x ∷ l) = omega (arith, length-place w x (by_weight w l), length-by_weight w l)

by_weight-Perm : (w : Bytes → ℕ) (l : List Bytes) → Perm (by_weight w l) l
unfolding by_weight
by_weight-Perm w [] = Perm.refl []
by_weight-Perm w (x ∷ l) =
    Perm.trans (place-Perm w x (by_weight w l)) (Perm.cons x (by_weight-Perm w l))

pub by_weight-IsFalling : (w : Bytes → ℕ) (l : List Bytes) → IsFalling w (by_weight w l)
unfolding by_weight
by_weight-IsFalling w [] = tt
by_weight-IsFalling w (x ∷ l) = place-IsFalling w x (by_weight w l) (by_weight-IsFalling w l)

module _ (b3 : Blake3) where
  -- The nodes in the order of their weight for a key: the same nodes, none heavier than the one before.
  pub hrw_hash_lem :
      (key : Bytes) (nodes : List Bytes)
      → Perm (hrw_hash b3 key nodes) nodes × IsFalling (weight b3 key) (hrw_hash b3 key nodes)
  unfolding hrw_hash
  hrw_hash_lem key nodes =
      (by_weight-Perm (weight b3 key) nodes, by_weight-IsFalling (weight b3 key) nodes)

  pub length-select_replicas :
      (key : Bytes) (nodes : List Bytes) (n : ℕ)
      → length (select_replicas b3 key nodes n) ≡ min n (length nodes)
  unfolding select_replicas hrw_hash
  length-select_replicas key nodes n =
      length-take n (by_weight (weight b3 key) nodes)
      ∙ ap (min n) (length-by_weight (weight b3 key) nodes)

  select_volumes-chosen :
      (replicas : ℕ) (key : Bytes) (volumes : List VolumeMetadata)
      → select_volumes b3 replicas key volumes ≡ chosen b3 replicas key (healthy volumes)
  unfolding select_volumes healthy chosen
  select_volumes-chosen replicas key [] = refl
  select_volumes-chosen replicas key (v ∷ vs) = refl

  chosen_lem :
      (replicas : ℕ) (key : Bytes) (ids : List Bytes)
      → (0 < length ids
          → replicas ≤ length ids
          → (chosen b3 replicas key ids ≡ ok (take replicas (hrw_hash b3 key ids)))
            × (length (take replicas (hrw_hash b3 key ids)) ≡ replicas))
        × (0 < length ids
            → length ids < replicas
            → chosen b3 replicas key ids ≡ err (insufficient_replicas replicas (length ids)))
        × (length ids ≡ 0 → chosen b3 replicas key ids ≡ err no_healthy_volumes)
  unfolding chosen select_replicas hrw_hash
  chosen_lem replicas key [] = ground arith
  chosen_lem replicas key (x ∷ xs) = ground (
    arith,
    length-take replicas (by_weight (weight b3 key) (x ∷ xs)),
    length-by_weight (weight b3 key) (x ∷ xs),
  )

  -- With as many healthy volumes as replicas, and at least one, the heaviest of them are selected, as
  -- many as there are replicas. With fewer the error says how many there are, and with none that there
  -- are no healthy volumes.
  pub select_volumes_lem :
      (replicas : ℕ) (key : Bytes) (volumes : List VolumeMetadata)
      → (0 < length (healthy volumes)
          → replicas ≤ length (healthy volumes)
          → (select_volumes b3 replicas key volumes
              ≡ ok (take replicas (hrw_hash b3 key (healthy volumes))))
            × (length (take replicas (hrw_hash b3 key (healthy volumes))) ≡ replicas))
        × (0 < length (healthy volumes)
            → length (healthy volumes) < replicas
            → select_volumes b3 replicas key volumes
              ≡ err (insufficient_replicas replicas (length (healthy volumes))))
        × (length (healthy volumes) ≡ 0
            → select_volumes b3 replicas key volumes ≡ err no_healthy_volumes)
  select_volumes_lem replicas key volumes =
      rw (select_volumes-chosen replicas key volumes) (chosen_lem replicas key (healthy volumes))
