-- ===== src/HashMap.antt =====
-- `std::collections::HashMap` as an association list. The order of the list is the order in which
-- an iteration meets the entries; the theorems hold for every list, so for every such order.
mod Defs
pub mod Laws
pub mod Values
unfoldable pub use Defs.{lookup, insert, remove, retain}
pub use Defs.{HashMap, contains_key, HasDistinctKeys}
