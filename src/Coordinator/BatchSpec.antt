-- ===== src/Coordinator/BatchSpec.antt =====
-- src/coordinator/http.rs: a batch, on a map of keys in place of the database, and that `batch_ops` does
-- the same.
use minikv.Prelude.{
  ◌≡◌, refl, ◌∙◌, arith, inl, inr, Bool-cases, Option, Option-cases, none, some, List, [], ◌∷◌,
  nat_eq, list_eq, ◌==◌, if◌then◌else◌,
}
use minikv.Bytes.{Bytes}
use minikv.Text.{ascii}
use minikv.Errors.{ok}
use minikv.Metadata.{MetadataLibraries, KeyMetadata, put_key, get_key, delete_key}
use minikv.Metadata.RoundTrip.{get_key-put_key, get_key-delete_key}
use minikv.Coordinator.{text}
use minikv.Coordinator.Batch.{
  BatchOpReq, BatchResultResp, put_metadata, refusal, written, fetched, batch_op, batch_ops,
}

abbrev pub View : Type 0
View = Bytes → Option KeyMetadata

abbrev pub spec_op : BatchOpReq → View → View × BatchResultResp
spec_op o view =
    if o.op == ascii "put"
    then (elim o.value [
      | some val ↦ (
        λ key. if o.key == key then some (put_metadata o.key val) else view key,
        written o.key (ok tt),
      )
      | none ↦ (view, refusal o.key (text (ascii "Missing value for put")))
    ])
    else if o.op == ascii "get"
    then (view, fetched o.key (ok (view o.key)))
    else if o.op == ascii "delete"
    then (λ key. if o.key == key then none else view key, written o.key (ok tt))
    else (view, refusal o.key (text (ascii "Unknown op")))

abbrev pub spec_ops : List BatchOpReq → View → View × List BatchResultResp
spec_ops [] view = (view, [])
spec_ops (o ∷ os) view =
    let (after, result) = spec_op o view in
    let (last, results) = spec_ops os after in (last, result ∷ results)

module _ (libs : MetadataLibraries) where
  -- Reading gives what the map has.
  abbrev pub Reads : libs.rocks.Db → View → Type 0
  Reads db view = (key : Bytes) → get_key libs key db ≡ ok (view key)

  -- The database takes every write of a batch.
  pub record TakesWrites : Type 0 where
    pub puts :
        (key val : Bytes) (db : libs.rocks.Db) → (put_key libs (put_metadata key val) db).1 ≡ ok tt
    pub deletes : (key : Bytes) (db : libs.rocks.Db) → (delete_key libs key db).1 ≡ ok tt

  put-Reads :
      (k val : Bytes) (db : libs.rocks.Db) (view : View)
      → TakesWrites
      → Reads db view
      → Reads
          (put_key libs (put_metadata k val) db).0
          (λ key. if k == key then some (put_metadata k val) else view key)
  put-Reads k val db view takes reads key =
      get_key-put_key libs (put_metadata k val) key db (takes.puts k val db)
      ∙ ground (arith, reads key)

  delete-Reads :
      (k : Bytes) (db : libs.rocks.Db) (view : View)
      → TakesWrites
      → Reads db view
      → Reads (delete_key libs k db).0 (λ key. if k == key then none else view key)
  delete-Reads k db view takes reads key =
      get_key-delete_key libs k key db (takes.deletes k db) ∙ ground (arith, reads key)

  abbrev Refines : BatchOpReq → libs.rocks.Db → View → Type 0
  Refines o db view =
      Reads (batch_op libs o db).0 (spec_op o view).0
      × ((batch_op libs o db).1 ≡ (spec_op o view).1)

  batch_op-Refines :
      (o : BatchOpReq) (db : libs.rocks.Db) (view : View)
      → TakesWrites
      → Reads db view
      → Refines o db view
  unfolding batch_op
  batch_op-Refines o db view takes reads = elim (Bool-cases (o.op == ascii "put")) [
    | inl is_put ↦ elim (Option-cases o.value) [
      | inr (val, given) ↦
          rw (is_put, given, takes.puts o.key val db, batch_op)
            (put-Reads o.key val db view takes reads, refl)
      | inl missing ↦ rw (is_put, missing, batch_op) (reads, refl)
    ]
    | inr not_put ↦ elim (Bool-cases (o.op == ascii "get")) [
      | inl is_get ↦ rw (not_put, is_get, reads o.key, batch_op) (reads, refl)
      | inr not_get ↦ elim (Bool-cases (o.op == ascii "delete")) [
        | inl is_delete ↦
            rw (not_put, not_get, is_delete, takes.deletes o.key db, batch_op)
              (delete-Reads o.key db view takes reads, refl)
        | inr unknown ↦ rw (not_put, not_get, unknown, batch_op) (reads, refl)
      ]
    ]
  ]

  -- On a database that takes every write and reads as a map does, a batch gives the results that the
  -- same batch gives on the map, where a get sees the writes before it, and the database reads as that
  -- map afterwards.
  pub batch_ops-spec_ops :
      (os : List BatchOpReq) (db : libs.rocks.Db) (view : View)
      → TakesWrites
      → Reads db view
      → Reads (batch_ops libs os db).0 (spec_ops os view).0
        × ((batch_ops libs os db).1 ≡ (spec_ops os view).1)
  unfolding batch_ops
  batch_ops-spec_ops [] db view takes reads = (reads, refl)
  batch_ops-spec_ops (o ∷ os) db view takes reads =
      let (then_reads, result) = batch_op-Refines o db view takes reads in
      let (at_last, results) =
        batch_ops-spec_ops os (batch_op libs o db).0 (spec_op o view).0 takes then_reads in
      (at_last, rw (result, results) refl)
