-- ===== src/Coordinator/Outcome.antt =====
-- src/coordinator/http.rs: what a transaction, an import and a batch leave in the store, key by key.
use minikv.Prelude.{
  ℕ, ◌+◌, ◌≡◌, refl, ap, ◌∙◌, arith, inl, inr, Bool, true, false, Option, Option-cases, none, some,
  List, [], ◌∷◌, map, length, nat_eq, list_eq, ◌==◌, if◌then◌else◌,
}
use minikv.Bytes.{Bytes}
use minikv.Text.{ascii}
use minikv.Storage.{KvStore}
use minikv.Coordinator.Transactions.{
  KeyValueEntry, Operation, import_entries, admin_import, operate, operate_all, transaction_ops,
}

-- What an operation says of one key, if it says anything: the value after it.
abbrev pub says : Bytes → Operation → Option (Option Bytes)
says key o =
    if o.op == ascii "put"
    then (elim o.value [
      | some value ↦ (if o.key == key then some (some value) else none)
      | none ↦ none
    ])
    else if (o.op == ascii "delete")
    then (if o.key == key then some none else none)
    else none

-- The last word on a key.
abbrev pub last_word : Bytes → List Operation → Option Bytes → Option Bytes
last_word key [] held = held
last_word key (o ∷ os) held =
    last_word key os (elim (says key o) [ some value ↦ value | none ↦ held ])

-- An operation that can be carried out.
abbrev pub is_valid : Operation → Bool
is_valid o =
    if o.op == ascii "put"
    then (elim o.value [ some value ↦ true | none ↦ false ])
    else o.op == ascii "delete"

abbrev pub count_valid : List Operation → ℕ
count_valid [] = 0
count_valid (o ∷ os) = (if is_valid o then 1 else 0) + count_valid os

abbrev pub as_put : KeyValueEntry → Operation
as_put e = record { op = ascii "put"; key = e.key; value = some e.value }

module _ (store : KvStore) where
  get-operate :
      (key : Bytes) (o : Operation) (s : store.State)
      → store.get key (operate store o s).0
        ≡ (elim (says key o) [ some value ↦ value | none ↦ store.get key s ])
  unfolding operate
  get-operate key o s = elim (Option-cases o.value) [
    | inl no_value ↦ ground (arith, no_value, store.get-delete o.key key s)
    | inr (value, given) ↦
        ground (arith, given, store.get-put o.key key value s, store.get-delete o.key key s)
  ]

  success-operate : (o : Operation) (s : store.State) → (operate store o s).1.success ≡ is_valid o
  unfolding operate
  success-operate o s = ground arith

  get-operate_all :
      (key : Bytes) (os : List Operation) (s : store.State)
      → store.get key (operate_all store os s).0 ≡ last_word key os (store.get key s)
  unfolding operate_all
  get-operate_all key [] s = refl
  get-operate_all key (o ∷ os) s =
      get-operate_all key os (operate store o s).0 ∙ ap (last_word key os) (get-operate key o s)

  success-operate_all :
      (os : List Operation) (s : store.State)
      → (map (λ r. r.success) (operate_all store os s).1 ≡ map is_valid os)
        × ((operate_all store os s).2 ≡ count_valid os)
  unfolding operate_all
  success-operate_all [] s = (refl, refl)
  success-operate_all (o ∷ os) s =
      let (flags, count) = success-operate_all os (operate store o s).0 in
      rw (success-operate o s, flags, count) (refl, refl)

  -- A transaction is not all or nothing: it carries out each operation that can be, in order, whatever
  -- the others are. Each key holds afterwards what the last such operation on it says, and what it held
  -- if there is none; each result tells whether its operation could be carried out, and the two counts
  -- are those of all operations and of the ones carried out.
  pub transaction_ops_lem :
      (os : List Operation) (s : store.State)
      → let (after, response) = transaction_ops store os s in
        ((key : Bytes) → store.get key after ≡ last_word key os (store.get key s))
        × (map (λ r. r.success) response.results ≡ map is_valid os)
        × (response.total_operations ≡ length os)
        × (response.successful_operations ≡ count_valid os)
  unfolding transaction_ops
  transaction_ops_lem os s =
      let (flags, count) = success-operate_all os s in
      (λ key. get-operate_all key os s, flags, refl, count)

  import_entries-operate_all :
      (es : List KeyValueEntry) (n : ℕ) (s : store.State)
      → import_entries store es n s ≡ ((operate_all store (map as_put es) s).0, n + length es)
  unfolding import_entries operate_all operate
  import_entries-operate_all [] n s = ap (λ m. (s, m)) (omega arith)
  import_entries-operate_all (e ∷ es) n s =
      import_entries-operate_all es (n + 1) (store.put e.key e.value s)
      ∙ ap (λ m. ((operate_all store (map as_put es) (store.put e.key e.value s)).0, m))
          (omega arith)

  -- An import does what the transaction that puts its entries does, and counts each of them.
  pub admin_import-transaction_ops :
      (es : List KeyValueEntry) (s : store.State)
      → admin_import store es s ≡ ((transaction_ops store (map as_put es) s).0, length es)
  unfolding admin_import transaction_ops
  admin_import-transaction_ops es s =
      import_entries-operate_all es 0 s
      ∙ ap (λ m. ((operate_all store (map as_put es) s).0, m)) (omega arith)
