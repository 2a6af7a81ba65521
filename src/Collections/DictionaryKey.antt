-- ===== src/Collections/DictionaryKey.antt =====
-- crates/contract-api/src/collections/dictionary_key.rs, and the `DictionaryKey` derive macro of
-- crates/contract-macros/src/lib.rs, which joins the keys of a struct's fields as tuples do.
pub mod Fixed
pub mod Strings
use casper_contract_kit.Base.{
  ℕ, zero, suc, ◌+◌, ◌^◌, ◌<◌, Bytes, List, [], ◌∷◌, ◌++◌, ◌==◌, if◌then◌else◌,
}
use casper_contract_kit.Base.LittleEndian.{to_le_bytes}
use casper_contract_kit.Collections.Base128.{encode_bytes}

-- The trait. A `str` is its bytes.
pub record DictionaryKey (T : Type 0) : Type 0 where
  pub dictionary_key : T → Bytes

-- `TUPLE_DELIMITER`, the byte of ':'
abbrev pub tuple_delimiter : ℕ
tuple_delimiter = 58

-- The loop over `parts.iter().enumerate()`.
unfoldable pub join_loop : ℕ → List Bytes → Bytes → Bytes
join_loop idx [] combined = combined
join_loop idx (part ∷ parts) combined =
    join_loop (suc idx) parts
      ((if idx == 0 then combined else combined ++ (tuple_delimiter ∷ [])) ++ part)

unfoldable pub combine : List Bytes → Bytes
unfolding join_loop
combine parts = join_loop 0 parts []

-- The key of a struct in the derive macro: no field, one field, or several fields.
unfoldable pub derived_key : List Bytes → Bytes
unfolding combine
derived_key [] = []
derived_key (part ∷ []) = part
derived_key (part ∷ next ∷ parts) = combine (part ∷ next ∷ parts)

abbrev pub str_key : DictionaryKey Bytes
str_key = record { dictionary_key = λ s. s }

-- `impl DictionaryKey for u32` and `for u64`; a `U256` writes 32 bytes in the same order.
abbrev pub u32_key : DictionaryKey ℕ
u32_key = record { dictionary_key = λ v. encode_bytes (to_le_bytes 4 v) }

abbrev pub u64_key : DictionaryKey ℕ
u64_key = record { dictionary_key = λ v. encode_bytes (to_le_bytes 8 v) }

abbrev pub u256_key : DictionaryKey ℕ
u256_key = record { dictionary_key = λ v. encode_bytes (to_le_bytes 32 v) }

-- `[u8; N]`, and `AccountHash` and `ContractHash`, which are 32 bytes.
abbrev pub array_key : DictionaryKey Bytes
array_key = record { dictionary_key = λ bytes. encode_bytes bytes }

abbrev pub pair_key :
    {T₁ T₂ : Type 0} → DictionaryKey T₁ → DictionaryKey T₂ → DictionaryKey (T₁ × T₂)
pair_key k₁ k₂ = record {
  dictionary_key = λ t. combine (k₁.dictionary_key t.0 ∷ k₂.dictionary_key t.1 ∷ []);
}

abbrev pub triple_key :
    {T₁ T₂ T₃ : Type 0}
    → DictionaryKey T₁
    → DictionaryKey T₂
    → DictionaryKey T₃
    → DictionaryKey (T₁ × T₂ × T₃)
triple_key k₁ k₂ k₃ = record {
  dictionary_key =
      λ t. combine (k₁.dictionary_key t.0 ∷ k₂.dictionary_key t.1 ∷ k₃.dictionary_key t.2 ∷ []);
}
