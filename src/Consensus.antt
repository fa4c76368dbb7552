-- ===== src/Consensus.antt =====
-- The consensus methods of src/kernel/consensus, which fill what the chain asks of one.
pub mod Pow
pub mod Avrr
pub mod Regtest
mod Tests
