-- ===== src/Blob/Tests.antt =====
-- The store of src/volume/blob.rs on concrete keys.
use minikv.Prelude.{
  true, ◌++◌, list_eq, nat_eq, arith, some, ◌≡◌, refl, inl, false, none, List, [], ◌∷◌,
}
use minikv.Errors.{ok}
use minikv.Bytes.{Bytes}
use minikv.Samples.{delete_b, key_b_utf8, key_b, key_a, sample_libraries, size_crc}
use minikv.Wal.{never}
use minikv.Index.{Index}
use minikv.Blob.Format.{uncompressed, compressed, write_blob_to_segment}
use minikv.Blob.Store.{BlobStore, put_with_ttl, get}
use minikv.Blob.Spec.{Command, put, delete as delete_key, cleanup, spec_step, spec_run, spec_get}
use minikv.Blob.Writes.{IsPlain}
use minikv.Blob.Refinement.{AllPlain, run, get-spec_run_uncompressed}
use minikv.Blob.Restore.{restore, deletes, IsRestored, restore-log_bytes}
use minikv.Wal.{WalEntry, put as put_op}
use minikv.Wal.Format.{IsStorable}
use minikv.Wal.Replay.{log_bytes}
use minikv.Wal.Crash.{empty-IsEnd}
use minikv.Blob.Keys.{get-put_with_ttl, HasRoom, IsLive}

abbrev empty_store : BlobStore sample_libraries
empty_store = record {
  segments = [];
  index = record { map = [] };
  bloom = [];
  wal = record {
    writer = record { file = record { content = []; synced = [] }; buffer = [] };
    next_sequence = 0;
    sync_policy = never;
  };
  current_segment = 0;
  current_offset = 0;
  compression = uncompressed;
}

abbrev value : Bytes
value = 1 ∷ 2 ∷ 3 ∷ []

empty_store-HasRoom : HasRoom sample_libraries empty_store
empty_store-HasRoom = inl (omega arith)

ttl_runs : IsLive sample_libraries 50 (some 20) 60
ttl_runs = omega arith

stored_as_is : compressed size_crc sample_libraries.codec uncompressed value ≡ (value, false)
unfolding compressed
stored_as_is = refl

get-put_with_ttl_example :
    let (after, result) = put_with_ttl sample_libraries 50 key_a value (some 20) empty_store in
    (result ≡ ok tt) × (get sample_libraries 60 key_a after ≡ ok (some value))
get-put_with_ttl_example =
    get-put_with_ttl sample_libraries 50 60 key_a value value value false (some 20) empty_store
      empty_store-HasRoom (omega arith) (omega arith) (omega arith) stored_as_is refl ttl_runs

abbrev commands : List Command
commands =
    put 50 key_a value (some 20) ∷ put 52 key_b value none ∷ delete_key key_b ∷ cleanup 60 ∷ []

value-IsPlain : IsPlain size_crc sample_libraries.codec uncompressed key_a value
unfolding compressed
value-IsPlain = record { key_fits = omega arith; value_fits = omega arith; not_compressed = refl }

value_b-IsPlain : IsPlain size_crc sample_libraries.codec uncompressed key_b value
unfolding compressed
value_b-IsPlain = record { key_fits = omega arith; value_fits = omega arith; not_compressed = refl }

commands-AllPlain : AllPlain sample_libraries commands empty_store
unfolding put_with_ttl write_blob_to_segment
commands-AllPlain =
    ((empty_store-HasRoom, value-IsPlain), ((inl (omega arith), value_b-IsPlain), (tt, (tt, tt))))

get-spec_run_uncompressed_example :
    get sample_libraries 65 key_a (run sample_libraries commands empty_store)
    ≡ ok (spec_get 65 key_a (spec_run commands (λ k. none)))
get-spec_run_uncompressed_example =
    get-spec_run_uncompressed sample_libraries commands empty_store refl commands-AllPlain 65 key_a

get-spec_run_test : spec_get 65 key_a (spec_run commands (λ k. none)) ≡ some value
unfolding spec_get spec_run spec_step
get-spec_run_test = refl

-- The key was deleted and put again before the snapshot.
abbrev put_again : WalEntry
put_again = record { sequence = 2; op = put_op key_b value }

delete_b-IsStorable : IsStorable delete_b
delete_b-IsStorable = record { sequence_fits = omega arith; op_fits = (key_b_utf8, omega arith) }

put_again-IsStorable : IsStorable put_again
put_again-IsStorable = record {
  sequence_fits = omega arith;
  op_fits = (key_b_utf8, omega arith, omega arith);
}

abbrev entries : List WalEntry
entries = delete_b ∷ put_again ∷ []

abbrev loaded : Index
loaded = record {
  map = (key_b, record { shard = 0; offset = 0; size = 3; blake3 = []; expires_at = none }) ∷ [];
}

restore-log_bytes_example :
    (after : Index × List Bytes) × (restore sample_libraries
        (some (log_bytes size_crc entries ++ []))
        loaded
        []
      ≡ some (ok after))
    × IsRestored sample_libraries entries loaded [] after
restore-log_bytes_example =
    restore-log_bytes sample_libraries entries [] loaded []
      (delete_b-IsStorable, (put_again-IsStorable, tt)) (empty-IsEnd size_crc)

key_b_deleted : deletes key_b entries ≡ true
key_b_deleted = refl
