-- ===== src/Blob/OpenTests.antt =====
-- The opening of a volume of src/volume/blob.rs on concrete files.
use minikv.Prelude.{
  ◌^◌, ◌<◌, sym, length-append, ◌||◌, not, true, ◌++◌, list_eq, nat_eq, arith, some, ◌≡◌, refl,
  false, none, [], ◌∷◌, length,
}
use minikv.Errors.{ok}
use minikv.Bytes.{is_utf8, le_bytes, Bytes}
use minikv.HashMap.{HasDistinctKeys, lookup}
use minikv.Samples.{
  exact_check-set, delete_b, key_b_utf8, key_a_utf8, key_b, key_a, sample_libraries, size_crc,
}
use minikv.Wal.{never}
use minikv.Wal.Format.{IsStorable}
use minikv.Wal.Log.{IsLogOf}
use minikv.Index.{BlobLocation}
use minikv.Index.Snapshot
use minikv.Blob.Format.{uncompressed, compressed, checksum_data}
use minikv.Blob.RoundTrip.{record_of}
use minikv.Blob.Store.{hash_bytes, BlobStore, put_with_ttl, get, delete}
use minikv.Blob.Scan.{scan_loop}
use minikv.Blob.Scanned.{Stored, IsScannable, bytes_of, blobs_bytes}
use minikv.Blob.Found.{SegmentFile, IsScannableFile, segments_of, last_in, is_some}
use minikv.Blob.Open.{open_store}
use minikv.Blob.Reopened.{unsaved, open_store-unsaved}
use minikv.Blob.Returns.{left_files, first_segment, IsFirst, deleted_key_returns}
use minikv.Blob.Endless.{blob_back, scan_loop_endless}
use minikv.Blob.Saved.{saved_files, get-open_store-save_snapshot}

abbrev value : Bytes
value = 1 ∷ 2 ∷ 3 ∷ []

abbrev blob_a : Stored
blob_a = record { flag = false; key = key_a; stored = value; size = 3 }

abbrev file_a : SegmentFile
file_a = first_segment sample_libraries (blob_a ∷ [])

abbrev location_a : BlobLocation
location_a = record { shard = 0; offset = 0; size = 3; blake3 = 0x30 ∷ []; expires_at = none }

abbrev store_a : BlobStore sample_libraries
store_a = record {
  segments = segments_of sample_libraries (file_a ∷ []);
  index = record { map = (key_a, location_a) ∷ [] };
  bloom = [];
  wal = record {
    writer = record { file = record { content = []; synced = [] }; buffer = [] };
    next_sequence = 0;
    sync_policy = never;
  };
  current_segment = 0;
  current_offset = 32;
  compression = uncompressed;
}

blob_a-IsScannable : IsScannable blob_a
blob_a-IsScannable = record {
  key_utf8 = key_a_utf8;
  key_fits = omega arith;
  stored_fits = omega arith;
  size_fits = omega arith;
}

length_a : length (blobs_bytes size_crc sample_libraries.codec (blob_a ∷ [])) ≡ 32
unfolding record_of checksum_data le_bytes
length_a = refl

file_a-IsScannableFile : IsScannableFile sample_libraries file_a
file_a-IsScannableFile = record {
  blobs_scannable = (blob_a-IsScannable, tt);
  ends = refl;
  fits = omega (
    arith,
    length_a,
    length-append (blobs_bytes size_crc sample_libraries.codec (blob_a ∷ [])) [],
  );
}

store_a-IsFirst : IsFirst sample_libraries (blob_a ∷ []) store_a
store_a-IsFirst = record {
  content = refl;
  segment = refl;
  offset = sym length_a;
  room = omega arith;
  scannable = (blob_a-IsScannable, tt);
}

empty-IsLogOf : IsLogOf size_crc [] store_a.wal
empty-IsLogOf = record { content = refl; storable = tt; below = tt }

stored_as_is : compressed size_crc sample_libraries.codec uncompressed value ≡ (value, false)
unfolding compressed
stored_as_is = refl

deleted_key_returns_example :
    (reopened : BlobStore sample_libraries) × (open_store sample_libraries never (
        left_files sample_libraries (
          delete sample_libraries key_b
            (put_with_ttl sample_libraries 50 key_b value (some 20) store_a).0))
      ≡ some (ok reopened))
    × (get sample_libraries 90 key_b reopened ≡ ok (some value))
deleted_key_returns_example =
    deleted_key_returns sample_libraries 50 90 key_b value value false (some 20) (blob_a ∷ []) []
      store_a never store_a-IsFirst empty-IsLogOf (omega arith)
      (key_b_utf8, omega arith, omega arith) (omega arith) stored_as_is refl
      (omega (arith, length_a))

delete_b-IsStorable : IsStorable delete_b
delete_b-IsStorable = record { sequence_fits = omega arith; op_fits = (key_b_utf8, omega arith) }

open_store-unsaved_example :
    (store : BlobStore sample_libraries) × (open_store sample_libraries never
        (unsaved sample_libraries none (delete_b ∷ []) (file_a ∷ []))
      ≡ some (ok store))
    × (store.segments ≡ segments_of sample_libraries (file_a ∷ []))
    × ((key : Bytes) → lookup key store.index.map ≡ last_in sample_libraries (file_a ∷ []) key none)
    × ((key : Bytes)
        → (not (is_some (last_in sample_libraries (file_a ∷ []) key none))
            || sample_libraries.bloom.check (hash_bytes sample_libraries key) store.bloom)
          ≡ true)
open_store-unsaved_example =
    open_store-unsaved sample_libraries never (delete_b ∷ []) none (file_a ∷ [])
      (delete_b-IsStorable, tt) (omega arith, tt) (file_a-IsScannableFile, tt)

short : length (bytes_of size_crc sample_libraries.codec blob_a ++ (blob_back ++ [])) < 2 ^ 63
unfolding record_of checksum_data le_bytes
short = omega arith

scan_loop_endless_example :
    scan_loop sample_libraries 1000 7
      (bytes_of sample_libraries.crc sample_libraries.codec blob_a ++ (blob_back ++ []))
      0
      0
      (record { map = [] }, [])
    ≡ none
scan_loop_endless_example =
    scan_loop_endless sample_libraries blob_a [] 1000 7 (record { map = [] }, []) blob_a-IsScannable
      short

location_a-IsStorable : Snapshot.IsStorable (key_a, location_a)
unfolding is_utf8
location_a-IsStorable = record {
  key_utf8 = key_a_utf8;
  key_short = omega arith;
  shard_fits = omega arith;
  offset_fits = omega arith;
  size_fits = omega arith;
  hash_utf8 = refl;
  hash_short = omega arith;
  expiry_fits = tt;
}

-- The store once the filter has its key.
abbrev store_f : BlobStore sample_libraries
store_f = record store_a { bloom = hash_bytes sample_libraries key_a ∷ [] }

in_filter : sample_libraries.bloom.check (hash_bytes sample_libraries key_a) store_f.bloom ≡ true
in_filter = exact_check-set (hash_bytes sample_libraries key_a) []

store_a_keys : HasDistinctKeys store_f.index.map
unfolding lookup
store_a_keys = (refl, tt)

get-open_store-save_snapshot_example :
    (reopened : BlobStore sample_libraries) × (open_store sample_libraries never
        (saved_files sample_libraries store_f (delete_b ∷ []) none)
      ≡ some (ok reopened))
    × (get sample_libraries 70 key_a reopened ≡ get sample_libraries 70 key_a store_f)
get-open_store-save_snapshot_example =
    get-open_store-save_snapshot sample_libraries 70 key_a never (delete_b ∷ []) none store_f
      (location_a-IsStorable, tt) store_a_keys (omega arith) (delete_b-IsStorable, tt)
      (omega arith, tt) refl (λ loc h. in_filter)
