-- ===== src/Db.antt =====
-- rbatis-core/src/db.rs: the pool, connections, queries, cursors and transactions over three drivers,
-- whose own types and calls are a parameter.
pub mod Backend
pub mod Bind
pub mod Pool
pub mod Conn
pub mod Tx
pub mod Drivers
mod Tests
