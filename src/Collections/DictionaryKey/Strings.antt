-- ===== src/Collections/DictionaryKey/Strings.antt =====
-- Keys with `str` parts: a delimiter inside a part is not told from one between parts.
use casper_contract_kit.Base.{
  ◌≡◌, ◌≢◌, ap, Bytes, [], ◌∷◌, ◌++◌, append_assoc, append-nil, length, length-append, arith,
}
use casper_contract_kit.Collections.DictionaryKey.{tuple_delimiter, combine, str_key, pair_key}
use casper_contract_kit.Collections.DictionaryKey.Fixed.{tail_parts, combine_eq}

-- For any three strings a, b and c the pairs ("a:b", "c") and ("a", "b:c") have one key, and they
-- are different pairs.
pub str_pair_collides :
    (a b c : Bytes)
    → let left : Bytes × Bytes = (a ++ (tuple_delimiter ∷ b), c) in
      let right : Bytes × Bytes = (a, b ++ (tuple_delimiter ∷ c)) in
      ((pair_key str_key str_key).dictionary_key left
        ≡ (pair_key str_key str_key).dictionary_key right)
      × (left ≢ right)
str_pair_collides a b c = (same, differ)
  where
    same :
        combine ((a ++ (tuple_delimiter ∷ b)) ∷ c ∷ [])
        ≡ combine (a ∷ (b ++ (tuple_delimiter ∷ c)) ∷ [])
    same = rw (combine_eq, combine_eq) (unfold tail_parts in simp (append_assoc, append-nil))

    differ : ◌≢◌ {A = Bytes × Bytes} (a ++ (tuple_delimiter ∷ b), c) (a, b ++ (tuple_delimiter ∷ c))
    differ e =
        let second : c ≡ b ++ (tuple_delimiter ∷ c) = ap (λ t. t.1) e in
        omega (arith, ap length second, length-append b (tuple_delimiter ∷ c))
