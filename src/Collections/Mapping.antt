-- ===== src/Collections/Mapping.antt =====
-- crates/contract-api/src/collections/mapping.rs and set.rs: maps and sets in a dictionary.
pub mod Map
use casper_contract_kit.Base.{Bool, true, false, Bytes, Option, none, some, [], ◌∷◌, ok, pure}
use casper_contract_kit.Base.{◌>>=◌, ◌>>◌}
use casper_contract_kit.Casper.{ApiError}
use casper_contract_kit.Casper.Codec.{Codec}
use casper_contract_kit.Host.{Host, Action, NamedKey}
use casper_contract_kit.NamedKey.{put_dict, get_dict}
use casper_contract_kit.Collections.DictionaryKey.{DictionaryKey}

-- `Mapping<K, V>` over its named key; `bind_to` is a mapping over another one.
module _ (host : Host) {K V : Type 0} (keys : DictionaryKey K) (codec : Codec V)
    (nk : NamedKey) where
  unfoldable pub insert : K → V → Action ApiError (Unit {0})
  insert key value = put_dict host codec nk (keys.dictionary_key key) value

  unfoldable pub get : K → Action ApiError (Option V)
  get key = get_dict host codec nk (keys.dictionary_key key)

-- `()` is serialized as no bytes.
abbrev pub unit_from_bytes : Bytes → Option (Unit {0})
unit_from_bytes [] = some tt
unit_from_bytes (b ∷ rest) = none

abbrev pub unit_codec : Codec (Unit {0})
unit_codec = record {
  to_bytes = λ _. [];
  from_bytes = unit_from_bytes;
  refusal = λ bytes. ApiError.left_over_bytes;
}

-- `value.is_some()`
abbrev pub is_some : {A : Type 0} → Option A → Bool
is_some none = false
is_some (some a) = true

-- `Set<K>`, a mapping to `()`
module _ (host : Host) {K : Type 0} (keys : DictionaryKey K) (nk : NamedKey) where
  unfoldable pub set_insert : K → Action ApiError (Unit {0})
  set_insert key = insert host keys unit_codec nk key tt

  unfoldable pub contains : K → Action ApiError Bool
  contains key = do value ← get host keys unit_codec nk key; pure (is_some value)
