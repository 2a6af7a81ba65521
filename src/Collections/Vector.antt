-- ===== src/Collections/Vector.antt =====
-- crates/contract-api/src/collections/vector.rs: a sequence in a dictionary, whose length is an item.
pub mod Items
pub mod Sequence
use casper_contract_kit.Base.{ℕ, ◌+◌, ◌%◌, ◌^◌, Bool, Bytes, Option, [], ◌∷◌, ◌==◌, pure, unwrap_or}
use casper_contract_kit.Base.{◌>>=◌, ◌>>◌}
use casper_contract_kit.Base.LittleEndian.{to_le_bytes}
use casper_contract_kit.Casper.{ApiError}
use casper_contract_kit.Casper.Codec.{Codec}
use casper_contract_kit.Host.{Host, Action, NamedKey}
use casper_contract_kit.NamedKey.{put_dict, get_dict}
use casper_contract_kit.Collections.Base128.{encode_bytes}

-- `VEC_LENGTH_KEY`, the bytes of "length"
abbrev pub vec_length_key : Bytes
vec_length_key = 108 ∷ 101 ∷ 110 ∷ 103 ∷ 116 ∷ 104 ∷ []

-- `base128::encode_bytes(&index.to_le_bytes())`
unfoldable pub item_key : ℕ → Bytes
item_key index = encode_bytes (to_le_bytes 8 index)

-- `Vector<T>` over its named key. `length + 1` on a u64 wraps in the builds that contracts run.
module _ (host : Host) (u64_codec : Codec ℕ) {T : Type 0} (codec : Codec T) (nk : NamedKey) where
  unfoldable pub len : Action ApiError ℕ
  len = do length ← get_dict host u64_codec nk vec_length_key; pure (unwrap_or 0 length)

  unfoldable pub is_empty : Action ApiError Bool
  is_empty = do length ← len; pure (length == 0)

  unfoldable pub set_len : ℕ → Action ApiError (Unit {0})
  set_len new_length = put_dict host u64_codec nk vec_length_key new_length

  unfoldable pub push : T → Action ApiError (Unit {0})
  push value = do
    length ← len
    put_dict host codec nk (item_key length) value
    set_len ((length + 1) % 2 ^ 64)

  unfoldable pub get : ℕ → Action ApiError (Option T)
  get index = get_dict host codec nk (item_key index)

  unfoldable pub set : ℕ → T → Action ApiError (Unit {0})
  set index value = put_dict host codec nk (item_key index) value
