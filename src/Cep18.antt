-- ===== src/Cep18.antt =====
-- crates/contract-extras/src/cep18.rs and crates/contract-extras/src/cep18: the CEP-18 token.
pub mod Error
pub mod Modalities
pub mod Badge
pub mod Event
pub mod Store
pub mod Methods
pub mod Token
pub mod Storage
pub mod EntryPoints
pub mod Contract
pub mod Arguments
pub mod Sums
pub mod Transfers
pub mod Supply
pub mod Backed
pub mod BadgeMap
pub mod Access
pub mod Reachable
pub mod Simulation
pub mod Implements
pub mod Refinement
