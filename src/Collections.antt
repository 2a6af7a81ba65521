-- ===== src/Collections.antt =====
-- crates/contract-api/src/collections: dictionary keys and the collections on dictionaries.
pub mod Base128
pub mod DictionaryKey
pub mod Open
pub mod Vector
pub mod Mapping
