-- ===== src/Presbyterian.antt =====
-- Package presbyterian, the main chain: its ledger state and its branches of blocks.
pub mod Env
pub mod MetaIndex
pub mod MetaState
pub mod BlockNode
pub mod Branch
pub mod Chain
