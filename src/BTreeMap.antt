-- ===== src/BTreeMap.antt =====
-- Rust's `BTreeMap` as the list of its entries in the order of their keys.
mod Defs
mod Laws
unfoldable pub use Defs.{BTreeMap, empty, get, insert, adjust, remove, contains_key, values, len}
pub use Laws.*
