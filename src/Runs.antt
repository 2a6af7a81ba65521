-- ===== src/Runs.antt =====
-- Concrete runs: the theorems applied to small states.
mod Sample
mod Tokens
mod Supply
mod Storage
mod Keys
mod Port
mod Calls
mod Trie
mod Collections
mod Json
mod Contract
mod Executions
mod Install
mod Rpc
