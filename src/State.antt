-- ===== src/State.antt =====
-- Package state, the queries of a domain's database.
pub mod Pool
pub mod Storage
pub mod Execution
