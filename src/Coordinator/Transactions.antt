-- ===== src/Coordinator/Transactions.antt =====
-- src/coordinator/http.rs: `admin_import` and `transaction_ops`.
use minikv.Prelude.{
  ℕ, ◌+◌, Bool, true, false, Option, none, some, List, [], ◌∷◌, length, nat_eq, list_eq, ◌==◌,
  if◌then◌else◌,
}
use minikv.Bytes.{Bytes}
use minikv.Text.{ascii}
use minikv.Storage.{KvStore}

pub record KeyValueEntry : Type 0 where
  pub key : Bytes
  pub value : Bytes

pub record Operation : Type 0 where
  pub op : Bytes
  pub key : Bytes
  pub value : Option Bytes

pub record TransactionResult : Type 0 where
  pub op : Bytes
  pub key : Bytes
  pub success : Bool
  pub error : Option Bytes

pub record TransactionResponse : Type 0 where
  pub results : List TransactionResult
  pub total_operations : ℕ
  pub successful_operations : ℕ

abbrev pub succeeded : Operation → TransactionResult
succeeded o = record { op = o.op; key = o.key; success = true; error = none }

abbrev pub failed : Operation → Bytes → TransactionResult
failed o e = record { op = o.op; key = o.key; success = false; error = some e }

module _ (store : KvStore) where
  -- The loop of `admin_import`, from a count.
  unfoldable pub import_entries : List KeyValueEntry → ℕ → store.State → store.State × ℕ
  import_entries [] success_count s = (s, success_count)
  import_entries (entry ∷ entries) success_count s =
      import_entries entries (success_count + 1) (store.put entry.key entry.value s)

  -- The state after, and the field `imported`; `errors` is always empty.
  unfoldable pub admin_import : List KeyValueEntry → store.State → store.State × ℕ
  unfolding import_entries
  admin_import entries s = import_entries entries 0 s

  -- One operation: the state after, and its result.
  unfoldable pub operate : Operation → store.State → store.State × TransactionResult
  operate o s =
      if o.op == ascii "put"
      then (elim o.value [
        | some value ↦ (store.put o.key value s, succeeded o)
        | none ↦ (s, failed o (ascii "value required for put"))
      ])
      else if o.op == ascii "delete"
      then (store.delete o.key s, succeeded o)
      else (s, failed o (ascii "unknown operation"))

  -- The loop of `transaction_ops`: the state, the results, and `success_count`, which grows with each
  -- result that is a success.
  unfoldable pub operate_all :
      List Operation → store.State → store.State × List TransactionResult × ℕ
  unfolding operate
  operate_all [] s = (s, [], 0)
  operate_all (o ∷ os) s =
      let (after, result) = operate o s in
      let (last, results, success_count) = operate_all os after in
      (last, result ∷ results, (if result.success then 1 else 0) + success_count)

  unfoldable pub transaction_ops : List Operation → store.State → store.State × TransactionResponse
  unfolding operate_all
  transaction_ops operations s =
      let (after, results, success_count) = operate_all operations s in
      (
        after,
        record {
          results = results;
          total_operations = length operations;
          successful_operations = success_count;
        },
      )
