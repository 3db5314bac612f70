-- ===== src/Coordinator.antt =====
-- src/coordinator/http.rs: the handlers of the coordinator that read or write keys. The backend of the
-- objects is a `KvStore` and the metadata are those of the metadata store; texts are their bytes, and a
-- JSON answer is its fields. The log of audit events is not followed, nor are the watchers of changes:
-- a handler gives the change that it sends. A body is at most 2 MB, so no count in it reaches 2^31.
pub mod Transactions
pub mod Batch
pub mod Queries
pub mod ApiKeys
pub mod Objects
pub mod Buckets
pub mod Outcome
pub mod BatchSpec
pub mod Selection
pub mod Service
pub mod Ranges
mod Tables
mod Tests
use minikv.Prelude.{ℕ, Option}
use minikv.Bytes.{Bytes}
use minikv.Errors.{Error}

-- A text of the source, or what `format!("{}", e)` prints of an error.
pub data Message : Type 0 where
  text : Bytes → Message
  shown : Error → Message

pub record HttpResponse : Type 0 where
  pub status : ℕ
  pub body : Bytes

pub record KeyChangeEvent : Type 0 where
  pub event : Bytes
  pub key : Bytes
  pub tenant : Option Bytes
  pub timestamp : ℕ
