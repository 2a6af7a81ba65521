-- ===== src/Collections/DictionaryKey/Fixed.antt =====
-- Keys of a fixed width do not collide, alone or in tuples.
use casper_contract_kit.Base.{
  ℕ, suc, ◌+◌, ◌^◌, ◌<◌, ◌≡◌, refl, sym, ap, ◌∙◌, Bytes, List, [], ◌∷◌, ◌++◌, All, IsByte, length,
  length-append, append_cancel, append_assoc, append-nil, arith,
}
use casper_contract_kit.Base.LittleEndian.{
  to_le_bytes, from_le_bytes, to_le_bytes-IsByte, length-to_le_bytes, from_le_bytes-to_le_bytes,
}
use casper_contract_kit.Collections.Base128.{encode_bytes}
use casper_contract_kit.Collections.Base128.RoundTrip.{encode_bytes_injective}
use casper_contract_kit.Collections.Base128.Shape.{length-encode_bytes}
use casper_contract_kit.Collections.DictionaryKey.{
  DictionaryKey, tuple_delimiter, join_loop, combine, u32_key, u64_key, u256_key, array_key,
  pair_key,
}

-- All values that satisfy `Fits` have distinct keys, of one length.
pub record IsFixed {T : Type 0} (k : DictionaryKey T) (Fits : T → Type 0) : Type 0 where
  pub same_length :
      (a b : T) → Fits a → Fits b → length (k.dictionary_key a) ≡ length (k.dictionary_key b)
  pub injective : (a b : T) → Fits a → Fits b → k.dictionary_key a ≡ k.dictionary_key b → a ≡ b

-- The parts of a combined key, in order, the delimiter before each but the first.
unfoldable pub tail_parts : List Bytes → Bytes
tail_parts [] = []
tail_parts (part ∷ parts) = tuple_delimiter ∷ (part ++ tail_parts parts)

join_loop_tail :
    (idx : ℕ) (parts : List Bytes) (combined : Bytes)
    → join_loop (suc idx) parts combined ≡ combined ++ tail_parts parts
unfolding join_loop tail_parts
join_loop_tail idx [] combined = sym (append-nil combined)
join_loop_tail idx (part ∷ parts) combined =
    let step = join_loop_tail (suc idx) parts ((combined ++ (tuple_delimiter ∷ [])) ++ part) in
    ground_test
    ∙ step
    ∙ append_assoc (combined ++ (tuple_delimiter ∷ [])) part (tail_parts parts)
    ∙ append_assoc combined (tuple_delimiter ∷ []) (part ++ tail_parts parts)
  where
    ground_test :
        join_loop (suc idx) (part ∷ parts) combined
        ≡ join_loop (suc (suc idx)) parts ((combined ++ (tuple_delimiter ∷ [])) ++ part)
    ground_test = ground arith

pub combine_eq :
    (part : Bytes) (parts : List Bytes) → combine (part ∷ parts) ≡ part ++ tail_parts parts
unfolding combine
combine_eq part parts = join_loop_tail 0 parts part

-- Two parts of known lengths are found again in the combined key.
abbrev SameLengths : List Bytes → List Bytes → Type 0
SameLengths [] [] = Unit
SameLengths [] (y ∷ ys) = ⊥
SameLengths (x ∷ xs) [] = ⊥
SameLengths (x ∷ xs) (y ∷ ys) = (length x ≡ length y) × SameLengths xs ys

tail_parts_injective :
    (xs ys : List Bytes) → SameLengths xs ys → tail_parts xs ≡ tail_parts ys → xs ≡ ys
unfolding tail_parts
tail_parts_injective [] [] h e = refl
tail_parts_injective [] (y ∷ ys) h e = absurd h
tail_parts_injective (x ∷ xs) [] h e = absurd h
tail_parts_injective (x ∷ xs) (y ∷ ys) (hx, h) e =
    let tails : x ++ tail_parts xs ≡ y ++ tail_parts ys = cc in
    let (p, q) = append_cancel x y tails hx in
    let rest : xs ≡ ys = tail_parts_injective xs ys h q in cc

-- Parts that agree in number and lengths are determined by the key that the loop builds from them.
pub combine_injective :
    (x y : Bytes) (xs ys : List Bytes)
    → length x ≡ length y
    → SameLengths xs ys
    → combine (x ∷ xs) ≡ combine (y ∷ ys)
    → (x ≡ y) × (xs ≡ ys)
combine_injective x y xs ys hx h e =
    let whole : x ++ tail_parts xs ≡ y ++ tail_parts ys =
      sym (combine_eq x xs) ∙ e ∙ combine_eq y ys in
    let (p, q) = append_cancel x y whole hx in (p, tail_parts_injective xs ys h q)

length-combine_two : (x y : Bytes) → length (combine (x ∷ y ∷ [])) ≡ length x + length y + 1
length-combine_two x y =
    rw (combine_eq, length-append) (unfold tail_parts in rw append-nil (omega arith))

-- An integer that fits its width, below `256 ^ width`.
int_key-IsFixed :
    (width : ℕ)
    → IsFixed
        (record { dictionary_key = λ (v : ℕ). encode_bytes (to_le_bytes width v) })
        (λ v. v < 256 ^ width)
int_key-IsFixed width = record {
  same_length = λ a b ha hb.
      length-encode_bytes _ _ (to_le_bytes-IsByte width a) (to_le_bytes-IsByte width b)
        (length-to_le_bytes width a ∙ sym (length-to_le_bytes width b));
  injective = λ a b ha hb e. recover a b ha hb (bytes a b e);
}
  where
    bytes :
        (a b : ℕ)
        → encode_bytes (to_le_bytes width a) ≡ encode_bytes (to_le_bytes width b)
        → to_le_bytes width a ≡ to_le_bytes width b
    bytes a b e =
        encode_bytes_injective _ _ (to_le_bytes-IsByte width a) (to_le_bytes-IsByte width b) e

    recover :
        (a b : ℕ)
        → a < 256 ^ width
        → b < 256 ^ width
        → to_le_bytes width a ≡ to_le_bytes width b
        → a ≡ b
    recover a b ha hb e =
        sym (from_le_bytes-to_le_bytes width a ha)
        ∙ ap from_le_bytes e
        ∙ from_le_bytes-to_le_bytes width b hb

pub u32_key-IsFixed : IsFixed u32_key (λ v. v < 256 ^ 4)
u32_key-IsFixed = int_key-IsFixed 4

pub u64_key-IsFixed : IsFixed u64_key (λ v. v < 256 ^ 8)
u64_key-IsFixed = int_key-IsFixed 8

pub u256_key-IsFixed : IsFixed u256_key (λ v. v < 256 ^ 32)
u256_key-IsFixed = int_key-IsFixed 32

-- `[u8; N]`
pub array_key-IsFixed : (n : ℕ) → IsFixed array_key (λ bytes. All IsByte bytes × (length bytes ≡ n))
array_key-IsFixed n = record {
  same_length = λ a b ha hb. length-encode_bytes a b ha.0 hb.0 (ha.1 ∙ sym hb.1);
  injective = λ a b ha hb e. encode_bytes_injective a b ha.0 hb.0 e;
}

module _ {T₁ T₂ : Type 0} {k₁ : DictionaryKey T₁} {k₂ : DictionaryKey T₂} {F₁ : T₁ → Type 0}
    {F₂ : T₂ → Type 0} (f₁ : IsFixed k₁ F₁) (f₂ : IsFixed k₂ F₂) where
  -- Two pairs of keys of fixed width with one dictionary key are the same pair.
  pub pair_injective :
      (a b : T₁ × T₂)
      → F₁ a.0 × F₂ a.1
      → F₁ b.0 × F₂ b.1
      → (pair_key k₁ k₂).dictionary_key a ≡ (pair_key k₁ k₂).dictionary_key b
      → a ≡ b
  pair_injective a b ha hb e =
      let same₁ = f₁.same_length a.0 b.0 ha.0 hb.0 in
      let same₂ = f₂.same_length a.1 b.1 ha.1 hb.1 in
      let (p, q) = combine_injective _ _ _ _ same₁ (same₂, tt) e in
      let second : k₂.dictionary_key a.1 ≡ k₂.dictionary_key b.1 = cc in
      let left = f₁.injective a.0 b.0 ha.0 hb.0 p in
      let right = f₂.injective a.1 b.1 ha.1 hb.1 second in λ i. (left i, right i)

  -- Pairs of fixed keys are fixed keys, so tuples nest without collisions.
  pub pair_key-IsFixed : IsFixed (pair_key k₁ k₂) (λ t. F₁ t.0 × F₂ t.1)
  pair_key-IsFixed = record { same_length = pair_same; injective = pair_injective }
    where
      pair_same :
          (a b : T₁ × T₂)
          → F₁ a.0 × F₂ a.1
          → F₁ b.0 × F₂ b.1
          → length ((pair_key k₁ k₂).dictionary_key a) ≡ length ((pair_key k₁ k₂).dictionary_key b)
      pair_same a b ha hb = omega (
        arith,
        f₁.same_length a.0 b.0 ha.0 hb.0,
        f₂.same_length a.1 b.1 ha.1 hb.1,
        length-combine_two (k₁.dictionary_key a.0) (k₂.dictionary_key a.1),
        length-combine_two (k₁.dictionary_key b.0) (k₂.dictionary_key b.1),
      )
