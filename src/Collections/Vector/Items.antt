-- ===== src/Collections/Vector/Items.antt =====
-- vector.rs: the items of a vector's dictionary, and the list that they are.
use casper_contract_kit.Base.{
  ℕ, zero, suc, if◌then◌else◌, ◌+◌, ◌<◌, ◌≡◌, ◌≢◌, ◌^◌, refl, sym, ap, subst, ◌∙◌, Option, none,
  some, List, [], ◌∷◌, ◌++◌, ◌==◌, length, length-append, unwrap_or, arith,
}
use casper_contract_kit.Base.LittleEndian.{to_le_bytes, to_le_bytes-IsByte, length-to_le_bytes}
use casper_contract_kit.Casper.Codec.{Codec, Lossless}
use casper_contract_kit.Shim.{Dictionary, insert_item}
use casper_contract_kit.NamedKey.Ops.{Holds}
use casper_contract_kit.Collections.Base128.Shape.{encode_bytes_shape}
use casper_contract_kit.Collections.DictionaryKey.Fixed.{u64_key-IsFixed}
use native.Mathlib.Decide.{ℕ_discrete}
use casper_contract_kit.Collections.Open.{insert_item-same, insert_item-other}
use casper_contract_kit.Collections.Vector.{vec_length_key, item_key}

-- The element of a list at an index.
unfoldable pub get_elem? : {A : Type 0} → List A → ℕ → Option A
get_elem? [] i = none
get_elem? (x ∷ xs) zero = some x
get_elem? (x ∷ xs) (suc i) = get_elem? xs i

get_elem?-append :
    {A : Type 0} (xs : List A) (x : A) (i : ℕ)
    → get_elem? (xs ++ (x ∷ [])) i ≡ (if i == length xs then some x else get_elem? xs i)
unfolding get_elem?
get_elem?-append [] x zero = refl
get_elem?-append [] x (suc i) = ground arith
get_elem?-append (y ∷ xs) x zero = ground arith
get_elem?-append (y ∷ xs) x (suc i) = ground (arith, get_elem?-append xs x i)

get_elem?-last :
    {A : Type 0} (xs : List A) (x : A) → get_elem? (xs ++ (x ∷ [])) (length xs) ≡ some x
get_elem?-last xs x = ground (arith, get_elem?-append xs x (length xs))

get_elem?-other :
    {A : Type 0} (xs : List A) (x : A) (i : ℕ)
    → length xs ≢ i
    → get_elem? (xs ++ (x ∷ [])) i ≡ get_elem? xs i
get_elem?-other xs x i n = ground (arith, get_elem?-append xs x i)

pub length-item_key : (i : ℕ) → length (item_key i) ≡ 10
unfolding item_key
length-item_key i =
    (encode_bytes_shape (to_le_bytes 8 i) (to_le_bytes-IsByte 8 i)).1
    ∙ ground (arith, length-to_le_bytes 8 i)

item_key_injective : (i j : ℕ) → i < 2 ^ 64 → j < 2 ^ 64 → item_key i ≡ item_key j → i ≡ j
unfolding item_key
item_key_injective i j hi hj e = u64_key-IsFixed.injective i j hi hj e

length≢item : (i : ℕ) → vec_length_key ≢ item_key i
length≢item i e =
    let lengths : length vec_length_key ≡ 10 = ap length e ∙ length-item_key i in ground arith

-- The items of a dictionary that are the list `xs`: its length, which may be missing if it is 0, and
-- at each index its element, or nothing past the end.
module _ {T : Type 0} (u64_codec : Codec ℕ) (codec : Codec T) where
  pub record Stores (xs : List T) (d : Dictionary) : Type 0 where
    pub stored_length : Option ℕ
    pub length_item : Holds u64_codec (d vec_length_key) stored_length
    pub is_length : unwrap_or 0 stored_length ≡ length xs
    pub items : (i : ℕ) → i < 2 ^ 64 → Holds codec (d (item_key i)) (get_elem? xs i)

  -- What the two writes of `push` make of the dictionary.
  unfoldable pub pushed : T → List T → Dictionary → Dictionary
  pushed x xs d =
      insert_item vec_length_key (u64_codec.to_bytes (length xs + 1))
        (insert_item (item_key (length xs)) (codec.to_bytes x) d)

  pub pushed-Stores :
      (x : T) (xs : List T) (d : Dictionary)
      → length xs + 1 < 2 ^ 64
      → Lossless codec x
      → Lossless u64_codec (length xs + 1)
      → Stores xs d
      → Stores (xs ++ (x ∷ [])) (pushed x xs d)
  unfolding pushed
  pushed-Stores x xs d small lossless lossless_len stores = record {
    stored_length = some (length xs + 1);
    length_item = rw (insert_item-same vec_length_key) (lossless_len, λ e. cc);
    is_length = sym (length-append xs (x ∷ []));
    items = λ i h.
        rw (insert_item-other vec_length_key (item_key i) _ _ (length≢item i))
          (elim (ℕ_discrete (length xs) i) [
            | yes e ↦
                subst
                  (λ j.
                    Holds codec
                      (insert_item (item_key (length xs)) (codec.to_bytes x) d (item_key j))
                      (get_elem? (xs ++ (x ∷ [])) j))
                  e
                  (rw (insert_item-same (item_key (length xs)), get_elem?-last xs x)
                    (lossless, λ f. cc))
            | no n ↦
                rw
                  (
                    insert_item-other (item_key (length xs)) (item_key i) (codec.to_bytes x) d
                        (λ e. n (item_key_injective (length xs) i (omega arith) h e)),
                    get_elem?-other xs x i n,
                  )
                  (stores.items i h)
          ]);
  }
