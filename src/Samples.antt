-- ===== src/Samples.antt =====
-- Concrete libraries and data for the tests of the other modules.
use minikv.Prelude.{
  zero, suc, ℕ, ◌%◌, ◌^◌, ◌≡◌, refl, arith, Bool, true, false, none, List, [], ◌∷◌, length,
  replicate, All, nat_eq, list_eq, ◌==◌, ◌||◌, eq_refl,
}
use minikv.Bytes.{Bytes, is_utf8, IsByte}
use minikv.External.{Crc32, Blake3, Bloom}
use minikv.Wal.{WalEntry, put, delete}
use minikv.Blob.Store.{Libraries}

-- A sum that depends on the size of the data.
abbrev pub size_crc : Crc32
size_crc = record { hash = λ d. length d % 2 ^ 32; hash-IsU32 = λ d. omega arith }

-- "a" and "b"
abbrev pub key_a : Bytes
key_a = 0x61 ∷ []

abbrev pub key_b : Bytes
key_b = 0x62 ∷ []

pub key_a_utf8 : is_utf8 key_a ≡ true
unfolding is_utf8
key_a_utf8 = refl

pub key_b_utf8 : is_utf8 key_b ≡ true
unfolding is_utf8
key_b_utf8 = refl

abbrev pub put_a : WalEntry
put_a = record { sequence = 0; op = put key_a (1 ∷ 2 ∷ []) }

abbrev pub delete_b : WalEntry
delete_b = record { sequence = 1; op = delete key_b }

pub zeros : (n : ℕ) → All IsByte (replicate n 0)
zeros zero = tt
zeros (suc n) = (omega arith, zeros n)

abbrev pub zero_blake3 : Blake3
zero_blake3 = record {
  digest = λ d. replicate 32 0;
  length-digest = λ d. refl;
  digest-IsByte = λ d. zeros 32;
  display = λ d. 0x30 ∷ [];
}

-- A filter that keeps its items.
abbrev pub exact_check : Bytes → List Bytes → Bool
exact_check x [] = false
exact_check x (y ∷ ys) = (x == y) || exact_check x ys

pub exact_check-set : (x : Bytes) (f : List Bytes) → exact_check x (x ∷ f) ≡ true
exact_check-set x f = ground (arith, eq_refl x)

pub exact_check-set_other :
    (x y : Bytes) (f : List Bytes) → exact_check x f ≡ true → exact_check x (y ∷ f) ≡ true
exact_check-set_other x y f h = ground arith

abbrev pub exact_bloom : Bloom
exact_bloom = record {
  Filter = List Bytes;
  new_for_fp_rate = [];
  set = λ x f. x ∷ f;
  check = exact_check;
  to_bytes = λ f. [];
  from_bytes = λ d. none;
  check-set = exact_check-set;
  check-set_other = exact_check-set_other;
}

abbrev pub sample_libraries : Libraries
sample_libraries = record {
  crc = size_crc;
  blake3 = zero_blake3;
  hex = record { decode = λ d. none };
  bloom = exact_bloom;
  codec = record { compress = λ d. none; decompress = λ d n. none };
}
