-- ===== src/Storage.antt =====
-- src/common/storage.rs: what the handlers take of a key-value backend, and the one in memory. The RocksDB
-- and sled backends pass each call on to their library; the interface states what such a library promises.
use minikv.Prelude.{◌≡◌, Option, none, some, nat_eq, list_eq, ◌==◌, if◌then◌else◌}
use minikv.Bytes.{Bytes}
use minikv.HashMap.{HashMap, lookup, insert, remove}
use minikv.HashMap.Laws.{lookup-insert, lookup-remove}

-- The trait `KVStore`, with its state written out. A lock is held over each call.
pub record KvStore : Type 1 where
  pub State : Type 0
  pub get : Bytes → State → Option Bytes
  pub put : Bytes → Bytes → State → State
  pub delete : Bytes → State → State
  pub get-put :
      (key other value : Bytes) (s : State)
      → get other (put key value s) ≡ (if key == other then some value else get other s)
  pub get-delete :
      (key other : Bytes) (s : State)
      → get other (delete key s) ≡ (if key == other then none else get other s)

unfoldable pub mem_get : Bytes → HashMap Bytes Bytes → Option Bytes
mem_get key m = lookup key m

unfoldable pub mem_put : Bytes → Bytes → HashMap Bytes Bytes → HashMap Bytes Bytes
mem_put key value m = insert key value m

unfoldable pub mem_delete : Bytes → HashMap Bytes Bytes → HashMap Bytes Bytes
mem_delete key m = remove key m

pub mem_get-put :
    (key other value : Bytes) (m : HashMap Bytes Bytes)
    → mem_get other (mem_put key value m) ≡ (if key == other then some value else mem_get other m)
unfolding mem_get mem_put
mem_get-put key other value m = lookup-insert key other value m

pub mem_get-delete :
    (key other : Bytes) (m : HashMap Bytes Bytes)
    → mem_get other (mem_delete key m) ≡ (if key == other then none else mem_get other m)
unfolding mem_get mem_delete
mem_get-delete key other m = lookup-remove key other m

-- `MemStore` is a `KVStore`.
abbrev pub mem_store : KvStore
mem_store = record {
  State = HashMap Bytes Bytes;
  get = mem_get;
  put = mem_put;
  delete = mem_delete;
  get-put = mem_get-put;
  get-delete = mem_get-delete;
}
