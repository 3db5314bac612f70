-- ===== src/Coordinator/Tests.antt =====
-- The handlers of src/coordinator/http.rs and of src/coordinator/grpc.rs on the store in memory and a small
-- database.
use minikv.Prelude.{
  ◌≡◌, refl, ◌&&◌, none, some, List, [], ◌∷◌, length, map, nat_eq, list_eq, ◌==◌, if◌then◌else◌,
}
use minikv.Bytes.{Bytes}
use minikv.Text.{ascii}
use minikv.HashMap.{lookup}
use minikv.Samples.{zero_blake3}
use minikv.Storage.{mem_store}
use minikv.Metadata.{put_key, get_key, delete_key}
use minikv.Coordinator.Tables.{table_libraries, no_tables, objects}
use minikv.Coordinator.Transactions.{Operation, transaction_ops}
use minikv.Coordinator.Batch.{BatchOpReq, batch_ops}
use minikv.Coordinator.Outcome.{last_word, is_valid, count_valid, transaction_ops_lem}
use minikv.Coordinator.BatchSpec.{spec_ops, Reads, TakesWrites, batch_ops-spec_ops}
use minikv.Coordinator.Service.{
  BatchOp, init_global_store, batch, over_http, over_grpc, batch-batch_ops,
}
use minikv.Coordinator.Objects.{s3_put_object, s3_get_object}
use minikv.Coordinator.Buckets.{s3_get_object-s3_put_object}

abbrev operations : List Operation
operations =
    record { op = ascii "put"; key = ascii "a"; value = some (ascii "1") }
    ∷ record { op = ascii "put"; key = ascii "b"; value = none }
    ∷ record { op = ascii "delete"; key = ascii "c"; value = none }
    ∷ []

transaction_ops_lem_example :
    let (after, response) = transaction_ops mem_store operations [] in
    ((key : Bytes) → mem_store.get key after ≡ last_word key operations (mem_store.get key []))
    × (map (λ r. r.success) response.results ≡ map is_valid operations)
    × (response.total_operations ≡ length operations)
    × (response.successful_operations ≡ count_valid operations)
transaction_ops_lem_example = transaction_ops_lem mem_store operations []

abbrev requests : List BatchOpReq
requests =
    record { op = ascii "put"; key = ascii "a"; value = some (ascii "1") }
    ∷ record { op = ascii "get"; key = ascii "a"; value = none }
    ∷ record { op = ascii "delete"; key = ascii "a"; value = none }
    ∷ []

no_keys : Reads table_libraries no_tables (λ key. none)
unfolding get_key lookup
no_keys key = refl

all_taken : TakesWrites table_libraries
unfolding put_key delete_key
all_taken = record { puts = λ key val db. refl; deletes = λ key db. refl }

batch_ops-spec_ops_example :
    Reads table_libraries
      (batch_ops table_libraries requests no_tables).0
      (spec_ops requests (λ key. none)).0
    × ((batch_ops table_libraries requests no_tables).1 ≡ (spec_ops requests (λ key. none)).1)
batch_ops-spec_ops_example =
    batch_ops-spec_ops table_libraries requests no_tables (λ key. none) all_taken no_keys

s3_get_object-s3_put_object_example :
    let (after, event, response) =
      s3_put_object mem_store table_libraries zero_blake3 5 3
        (ascii "x")
        (ascii "a")
        (some (ascii "60"))
        (ascii "new")
        no_tables
        objects in
    (response.status ≡ 200)
    × (s3_get_object mem_store table_libraries zero_blake3 (ascii "x") (ascii "a") after ≡ (
        if (ascii "x" == ascii "x") && (ascii "a" == ascii "a")
        then record { status = 200; body = ascii "new" }
        else s3_get_object mem_store table_libraries zero_blake3 (ascii "x") (ascii "a") objects))
s3_get_object-s3_put_object_example =
    s3_get_object-s3_put_object mem_store table_libraries zero_blake3 5 3 (ascii "x") (ascii "a")
      (ascii "x") (ascii "a") (ascii "new") (some (ascii "60")) no_tables objects (refl, tt)
      (refl, tt)

-- A put, a get and an operation of no known type.
abbrev rpc_requests : List BatchOp
rpc_requests =
    record { op_type = 0; key = ascii "a"; value = ascii "1" }
    ∷ record { op_type = 1; key = ascii "a"; value = [] }
    ∷ record { op_type = 7; key = ascii "a"; value = [] }
    ∷ []

batch-batch_ops_example :
    let http = batch_ops table_libraries (map (over_http table_libraries) rpc_requests) no_tables in
    (batch table_libraries rpc_requests none ≡ none)
    × (batch table_libraries rpc_requests (init_global_store table_libraries no_tables none)
        ≡ some (some http.0, map (over_grpc table_libraries) http.1))
batch-batch_ops_example = batch-batch_ops table_libraries rpc_requests no_tables
