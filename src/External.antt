-- ===== src/External.antt =====
-- Third-party functions that the program calls, as interfaces. What stands beside the operations is
-- what their documentation promises and the program relies on.
use minikv.Prelude.{
  ◌==◌, nat_eq, eq_refl, arith, ℕ, ◌≡◌, Bool, true, Option, length, All, List, [], ◌∷◌, ◌++◌,
  String,
}
use minikv.Errors.{Result, err, io, other_io}
use minikv.Bytes.{Bytes, IsByte, IsU32, le_bytes, from_le_bytes, from_le_bytes-le_bytes}

-- crc32fast::hash
pub record Crc32 : Type 0 where
  pub hash : Bytes → ℕ
  pub hash-IsU32 : (d : Bytes) → IsU32 (hash d)

-- The sum that was written is the one computed from what was read.
pub sum_agrees :
    (crc : Crc32) (d : Bytes) → (crc.hash d == from_le_bytes (le_bytes 4 (crc.hash d))) ≡ true
sum_agrees crc d =
    rw (from_le_bytes-le_bytes 4 (crc.hash d) (omega (arith, crc.hash-IsU32 d)))
      (eq_refl (crc.hash d))

-- blake3::hash, 32 bytes.
pub record Blake3 : Type 0 where
  pub digest : Bytes → Bytes
  pub length-digest : (d : Bytes) → length (digest d) ≡ 32
  pub digest-IsByte : (d : Bytes) → All IsByte (digest d)
  -- What `format!("{}", hash)` prints.
  pub display : Bytes → Bytes

-- hex::decode
pub record Hex : Type 0 where
  pub decode : Bytes → Option Bytes

-- bloomfilter::Bloom: an item that was set is found, and stays so when others are set.
pub record Bloom : Type 1 where
  pub Filter : Type 0
  pub new_for_fp_rate : Filter
  pub set : Bytes → Filter → Filter
  pub check : Bytes → Filter → Bool
  pub to_bytes : Filter → Bytes
  pub from_bytes : Bytes → Option Filter
  pub check-set : (x : Bytes) (f : Filter) → check x (set x f) ≡ true
  pub check-set_other : (x y : Bytes) (f : Filter) → check x f ≡ true → check x (set y f) ≡ true

-- std::fs::rename, at one moment of the file system, on paths as their components: a directory cannot be
-- moved into itself.
pub record Rename : Type 0 where
  pub rename : List String → List String → Result (Unit {0})
  pub rename_inside :
      (path : List String) (name : String) → rename path (path ++ name ∷ []) ≡ err (io other_io)

-- lz4::block: `compress(value, None, true)` and `decompress(value, Some(size as i32))`.
pub record Lz4 : Type 0 where
  pub compress : Bytes → Option Bytes
  pub decompress : Bytes → ℕ → Option Bytes
