-- ===== src/Coordinator/Batch.antt =====
-- src/coordinator/http.rs: `batch_ops`, on the metadata of the keys. The value of a "get" is the metadata
-- whose JSON it is.
use minikv.Prelude.{
  Bool, true, false, Option, none, some, List, [], ◌∷◌, length, nat_eq, list_eq, ◌==◌,
  if◌then◌else◌,
}
use minikv.Bytes.{Bytes}
use minikv.Text.{ascii}
use minikv.Errors.{Result, ok, err}
use minikv.Metadata.{MetadataLibraries, KeyMetadata, active, put_key, get_key, delete_key}
use minikv.Coordinator.{Message, text, shown}

pub record BatchOpReq : Type 0 where
  pub op : Bytes
  pub key : Bytes
  pub value : Option Bytes

pub record BatchResultResp : Type 0 where
  pub is_ok : Bool
  pub key : Bytes
  pub value : Option KeyMetadata
  pub error : Option Message

-- What a put of a value writes: its size, and nothing else of it.
abbrev pub put_metadata : Bytes → Bytes → KeyMetadata
put_metadata key val = record {
  key = key;
  replicas = [];
  size = length val;
  blake3 = [];
  created_at = 0;
  updated_at = 0;
  state = active;
}

abbrev pub refusal : Bytes → Message → BatchResultResp
refusal key e = record { is_ok = false; key = key; value = none; error = some e }

-- The answer to a write.
abbrev pub written : Bytes → Result (Unit {0}) → BatchResultResp
written key (ok _) = record { is_ok = true; key = key; value = none; error = none }
written key (err e) = refusal key (shown e)

abbrev pub fetched : Bytes → Result (Option KeyMetadata) → BatchResultResp
fetched key (ok (some meta)) = record { is_ok = true; key = key; value = some meta; error = none }
fetched key (ok none) = refusal key (text (ascii "Not found"))
fetched key (err e) = refusal key (shown e)

module _ (libs : MetadataLibraries) where
  unfoldable pub batch_op : BatchOpReq → libs.rocks.Db → libs.rocks.Db × BatchResultResp
  batch_op o db =
      if o.op == ascii "put"
      then (elim o.value [
        | some val ↦
            let (after, r) = put_key libs (put_metadata o.key val) db in (after, written o.key r)
        | none ↦ (db, refusal o.key (text (ascii "Missing value for put")))
      ])
      else if o.op == ascii "get"
      then (db, fetched o.key (get_key libs o.key db))
      else if o.op == ascii "delete"
      then (let (after, r) = delete_key libs o.key db in (after, written o.key r))
      else (db, refusal o.key (text (ascii "Unknown op")))

  unfoldable pub batch_ops : List BatchOpReq → libs.rocks.Db → libs.rocks.Db × List BatchResultResp
  unfolding batch_op
  batch_ops [] db = (db, [])
  batch_ops (o ∷ os) db =
      let (after, result) = batch_op o db in
      let (last, results) = batch_ops os after in (last, result ∷ results)
