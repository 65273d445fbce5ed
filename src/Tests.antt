-- ===== src/Tests.antt =====
-- The theorems at concrete inputs.
mod Sample
mod Ledger
mod Chain
mod MainChain
mod Indexes
mod Coordinator
mod Strangers
mod Replicas
mod Domain
mod Bills
