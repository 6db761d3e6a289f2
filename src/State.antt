-- ===== src/State.antt =====
-- internal/server/state. `Index` has the indexers of index.go, `Keys` the order of their keys,
-- `Memdb` the library that keeps the tables.
pub mod Index
pub mod Keys
pub mod Memdb
pub mod Schema
pub mod Bolt
pub mod Store
pub mod Slash
