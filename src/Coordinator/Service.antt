-- ===== src/Coordinator/Service.antt =====
-- src/coordinator/grpc.rs: the range and the batch of the gRPC service, over the metadata of the keys, and
-- what they have to do with those of src/coordinator/http.rs. The texts of the errors are messages. The
-- metadata are those of the global store of src/coordinator/metadata.rs, `none` as long as it is not set;
-- a call that panics is `none`.
use minikv.Prelude.{
  ℕ, ◌≡◌, refl, ap, ◌∙◌, ◌⊎◌, inl, inr, Bool, true, false, Option, none, some, List, [], ◌∷◌, map,
  nat_eq, list_eq, ◌==◌, if◌then◌else◌, Bool-cases,
}
use minikv.Bytes.{Bytes}
use minikv.Text.{ascii}
use minikv.Errors.{Error, Result, ok, err}
use minikv.Metadata.{MetadataLibraries, KeyMetadata, put_key, get_key, delete_key, list_keys}
use minikv.Coordinator.{Message, text, shown}
use minikv.Coordinator.Queries.{filter_range, sort}
use minikv.Coordinator.Batch.{
  BatchOpReq, BatchResultResp, put_metadata, written, fetched, batch_op, batch_ops,
}

-- The messages of proto/kv.proto. The type of an operation is its number there.
pub record BatchOp : Type 0 where
  pub op_type : ℕ
  pub key : Bytes
  pub value : Bytes

pub record BatchResult : Type 0 where
  pub is_ok : Bool
  pub key : Bytes
  pub value : Bytes
  pub error : Message

pub record RangeReply : Type 0 where
  pub keys : List Bytes
  pub values : List Bytes

abbrev put_type : ℕ
put_type = 0

abbrev get_type : ℕ
get_type = 1

abbrev delete_type : ℕ
delete_type = 2

-- The answer, where no error is an empty text.
abbrev pub result_of : Bytes → Bool → Bytes → Option Message → BatchResult
result_of key is_ok value error = record {
  is_ok = is_ok;
  key = key;
  value = value;
  error = elim error [ none ↦ text [] | some e ↦ e ];
}

abbrev pub reply : List Bytes → List Bytes → RangeReply
reply keys values = record { keys = keys; values = values }

module _ (libs : MetadataLibraries) where
  -- `bincode::serialize(&meta).unwrap_or_default()`
  unfoldable pub serialized : KeyMetadata → Bytes
  serialized meta = elim (libs.key_codec.serialize meta) [ inl e ↦ [] | inr bytes ↦ bytes ]

  unfoldable pub range_values : libs.rocks.Db → List Bytes → List Bytes
  unfolding serialized
  range_values db [] = []
  range_values db (k ∷ ks) =
      let rest = range_values db ks in
      elim (get_key libs k db) [
        | ok (some meta) ↦ serialized meta ∷ rest
        | ok none ↦ [] ∷ rest
        | err e ↦ [] ∷ rest
      ]

  -- The global store is set once.
  unfoldable pub init_global_store : libs.rocks.Db → Option libs.rocks.Db → Option libs.rocks.Db
  init_global_store store none = some store
  init_global_store store (some old) = some old

  -- `range` over a store. An error is answered with the status Internal.
  unfoldable pub range_of : Bytes → Bytes → Bool → libs.rocks.Db → Error ⊎ RangeReply
  unfolding range_values filter_range sort
  range_of start end include_values db = elim (list_keys libs db) [
    | err e ↦ inl e
    | ok ks ↦
        let filtered = sort (filter_range start end ks) in
        inr (record {
          keys = filtered;
          values = if include_values then range_values db filtered else [];
        })
  ]

  unfoldable pub range : Bytes → Bytes → Bool → Option libs.rocks.Db → Option (Error ⊎ RangeReply)
  unfolding range_of
  range start end include_values none = none
  range start end include_values (some db) = some (range_of start end include_values db)

  abbrev done : Bytes → Result (Unit {0}) → BatchResult
  done key (ok _) = result_of key true [] none
  done key (err e) = result_of key false [] (some (shown e))

  abbrev got : Bytes → Result (Option KeyMetadata) → BatchResult
  got key (ok (some meta)) = result_of key true (serialized meta) none
  got key (ok none) = result_of key false [] (some (text (ascii "Not found")))
  got key (err e) = result_of key false [] (some (shown e))

  unfoldable pub operation : BatchOp → libs.rocks.Db → libs.rocks.Db × BatchResult
  operation op db =
      if op.op_type == put_type
      then (let (after, r) = put_key libs (put_metadata op.key op.value) db in
          (after, done op.key r))
      else if op.op_type == get_type
      then (db, got op.key (get_key libs op.key db))
      else if op.op_type == delete_type
      then (let (after, r) = delete_key libs op.key db in (after, done op.key r))
      else (db, result_of op.key false [] (some (text (ascii "Unknown op"))))

  -- The loop of `batch`.
  unfoldable pub batch_loop : List BatchOp → libs.rocks.Db → libs.rocks.Db × List BatchResult
  unfolding operation
  batch_loop [] db = (db, [])
  batch_loop (op ∷ ops) db =
      let (after, result) = operation op db in
      let (last, results) = batch_loop ops after in (last, result ∷ results)

  -- The global store after the batch, and the answer.
  unfoldable pub batch :
      List BatchOp → Option libs.rocks.Db → Option (Option libs.rocks.Db × List BatchResult)
  unfolding batch_loop
  batch ops none = none
  batch ops (some db) = let (after, results) = batch_loop ops db in some (some after, results)

  -- The operation that an HTTP client asks for: the types without a name are no operation there either.
  abbrev pub over_http : BatchOp → BatchOpReq
  over_http op = record {
    op =
        if op.op_type == put_type
        then ascii "put"
        else if op.op_type == get_type
        then ascii "get"
        else if op.op_type == delete_type
        then ascii "delete"
        else ascii "unknown";
    key = op.key;
    value = some op.value;
  }

  -- What an HTTP answer is as a gRPC answer.
  abbrev pub over_grpc : BatchResultResp → BatchResult
  over_grpc r =
      result_of r.key r.is_ok (elim r.value [ none ↦ [] | some meta ↦ serialized meta ]) r.error

  done-written : (key : Bytes) (r : Result (Unit {0})) → done key r ≡ over_grpc (written key r)
  done-written key (ok _) = refl
  done-written key (err e) = refl

  got-fetched :
      (key : Bytes) (r : Result (Option KeyMetadata)) → got key r ≡ over_grpc (fetched key r)
  got-fetched key (ok (some meta)) = refl
  got-fetched key (ok none) = refl
  got-fetched key (err e) = refl

  operation-batch_op :
      (op : BatchOp) (db : libs.rocks.Db)
      → ((operation op db).0 ≡ (batch_op libs (over_http op) db).0)
        × ((operation op db).1 ≡ over_grpc (batch_op libs (over_http op) db).1)
  unfolding operation batch_op
  operation-batch_op op db = elim (Bool-cases (op.op_type == put_type)) [
    | inl is_put ↦ rw (is_put) (refl, done-written op.key _)
    | inr no_put ↦ elim (Bool-cases (op.op_type == get_type)) [
      | inl is_get ↦ rw (no_put, is_get) (refl, got-fetched op.key _)
      | inr no_get ↦ elim (Bool-cases (op.op_type == delete_type)) [
        | inl is_delete ↦ rw (no_put, no_get, is_delete) (refl, done-written op.key _)
        | inr no_delete ↦ rw (no_put, no_get, no_delete) (refl, refl)
      ]
    ]
  ]

  batch_loop-batch_ops :
      (ops : List BatchOp) (db : libs.rocks.Db)
      → ((batch_loop ops db).0 ≡ (batch_ops libs (map over_http ops) db).0)
        × ((batch_loop ops db).1 ≡ map over_grpc (batch_ops libs (map over_http ops) db).1)
  unfolding batch_loop batch_ops
  batch_loop-batch_ops [] db = (refl, refl)
  batch_loop-batch_ops (op ∷ ops) db =
      let (same_db, same_result) = operation-batch_op op db in
      let (rest_db, rest) = batch_loop-batch_ops ops (operation op db).0 in
      (
        rest_db ∙ ap (λ d. (batch_ops libs (map over_http ops) d).0) same_db,
        ap (λ r. r ∷ (batch_loop ops (operation op db).0).1) same_result
            ∙ ap (λ rs. over_grpc (batch_op libs (over_http op) db).1 ∷ rs)
                (rest ∙ ap (λ d. map over_grpc (batch_ops libs (map over_http ops) d).1) same_db),
      )

  -- As long as the global store is not set, every batch over gRPC panics. Once it is set to a database, a
  -- batch does to this database what the batch of the same operations does over HTTP in a coordinator
  -- with the same metadata, and answers each operation alike: the same success, the same metadata,
  -- serialized here, and the same error, operations of no known type included.
  pub batch-batch_ops :
      (ops : List BatchOp) (db : libs.rocks.Db)
      → (batch ops none ≡ none)
        × (batch ops (init_global_store db none)
            ≡ some (
              some (batch_ops libs (map over_http ops) db).0,
              map over_grpc (batch_ops libs (map over_http ops) db).1,
            ))
  unfolding batch init_global_store
  batch-batch_ops ops db =
      let (same_db, same_results) = batch_loop-batch_ops ops db in
      (
        refl,
        ap (λ d. some (some d, (batch_loop ops db).1)) same_db
            ∙ ap (λ rs. some (some (batch_ops libs (map over_http ops) db).0, rs)) same_results,
      )
