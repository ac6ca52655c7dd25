-- ===== src/Enclave.antt =====
-- OFTonSGX/trusted: the handlers of the enclave that guards the OpenFlow tables.
pub mod State
pub mod Run
pub mod Rules
pub mod Tables
pub mod Collect
pub mod Windows
pub mod Eviction
pub mod Evict
pub mod FlowMods
pub mod Tags
pub mod Flush
mod Examples
