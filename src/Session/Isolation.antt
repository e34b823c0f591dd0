-- ===== src/Session/Isolation.antt =====
-- src/rbatis.rs: the prepared statements of a transaction.
use rbatis.Session.{Session}
