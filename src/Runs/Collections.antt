-- ===== src/Runs/Collections.antt =====
-- Runs of the collections, of the pause flag and of missing values.
use native.Mathlib.Decide.{ℕ_discrete}
use text.Mathlib.Text.{◌==◌ as str_eq}
use casper_contract_kit.Base.{
  ℕ, ◌≤◌, ◌<◌, ◌≡◌, ◌≢◌, ◌^◌, refl, Bytes, Bool, true, false, Option, none, some, [], ◌∷◌, ◌==◌,
  inl, length, ok, err, if◌then◌else◌, arith,
}
use casper_contract_kit.Base.LittleEndian.{to_le_bytes, to_le_bytes-IsByte, length-to_le_bytes}
use casper_contract_kit.Casper.{Key, Key-discrete, ApiError, cl_value, key_eq}
use casper_contract_kit.Casper.Codec.{Codec, Lossless}
use casper_contract_kit.Host.{World, IsCoherent}
use casper_contract_kit.NamedKey.{from_name}
use casper_contract_kit.Utils.{read_key}
use casper_contract_kit.Utils.Missing.{read_key_missing}
use casper_contract_kit.Collections.Base128.Shape.{encode_bytes_shape}
use casper_contract_kit.Collections.DictionaryKey.{u32_key}
use casper_contract_kit.Collections.DictionaryKey.Fixed.{u32_key-IsFixed}
use casper_contract_kit.Collections.Open.{IsOpen}
use casper_contract_kit.Collections.Vector.{push}
use casper_contract_kit.Collections.Vector.Items.{get_elem?}
use casper_contract_kit.Collections.Vector.Sequence.{IsVector, push-IsVector}
use casper_contract_kit.Collections.Mapping
use casper_contract_kit.Collections.Mapping.Map.{IsMap, assign, insert-IsMap}
use casper_contract_kit.Pausable.{pausable_code, not_paused, pause, unpause, is_paused}
use casper_contract_kit.Pausable.Flag.{IsFlag, pause-unpause}
use casper_contract_kit.Runs.Storage.{byte_codec, host, host-IsDocumented, host-IsCalledBy}

-- "empty" stands for the dictionary 4, which has no item; "owner" for the account 7, and "paused" for
-- the URef 6, whose byte is 0.
abbrev world : World
world = record {
  env = record {
    address_generator = 0;
    database = λ k. if key_eq k (Key.uref 6) then some (cl_value (0 ∷ [])) else none;
    args = λ name. none;
    named_keys = λ name.
        if str_eq name "empty"
        then some (Key.uref 4)
        else if str_eq name "owner"
        then some (Key.account 7)
        else if str_eq name "paused"
        then some (Key.uref 6)
        else none;
    host_buffer = none;
    dictionaries = λ seed. if seed == 4 then some (λ _. none) else none;
    trace = [];
  };
  cells = λ nk. none;
}

world-IsCoherent : IsCoherent host world
world-IsCoherent = record { cells = λ nk. inl refl; keys_fit = λ name key h. ground arith }

empty-IsOpen : IsOpen host (from_name "empty") (λ _. none) world
empty-IsOpen = record {
  seed = 4;
  coherent = world-IsCoherent;
  emptied = refl;
  name = refl;
  content = refl;
}

-- The empty vector, of bytes and with lengths of one byte, and a first element.
empty-IsVector : IsVector host byte_codec byte_codec (from_name "empty") [] world
unfolding get_elem?
empty-IsVector = record {
  content = λ _. none;
  open_content = empty-IsOpen;
  stores = record {
    stored_length = none;
    length_item = refl;
    is_length = refl;
    items = λ i h. refl;
  };
}

push-IsVector_example :
    ((push host byte_codec byte_codec (from_name "empty") 9 world).0 ≡ ok tt)
    × IsVector host byte_codec byte_codec
        (from_name "empty")
        (9 ∷ [])
        (push host byte_codec byte_codec (from_name "empty") 9 world).1
push-IsVector_example =
    push-IsVector host host-IsDocumented (omega arith) byte_codec byte_codec (from_name "empty") []
      9 world empty-IsVector (ground arith) refl refl

-- The empty mapping from u32 to bytes.
empty-IsMap :
    {V : Type 0} (codec : Codec V)
    → IsMap host u32_key codec (λ k. k < 256 ^ 4) (from_name "empty") (λ _. none) world
empty-IsMap codec = record { content = λ _. none; open_content = empty-IsOpen; items = λ k h. refl }

short : (k : ℕ) → k < 256 ^ 4 → length (u32_key.dictionary_key k) ≤ 64
short k h = ground (
  arith,
  (encode_bytes_shape (to_le_bytes 4 k) (to_le_bytes-IsByte 4 k)).1,
  length-to_le_bytes 4 k,
)

insert-IsMap_example :
    ((Mapping.insert host u32_key byte_codec (from_name "empty") 3 9 world).0 ≡ ok tt)
    × IsMap host u32_key byte_codec
        (λ k. k < 256 ^ 4)
        (from_name "empty")
        (assign ℕ_discrete 3 9 (λ _. none))
        (Mapping.insert host u32_key byte_codec (from_name "empty") 3 9 world).1
insert-IsMap_example =
    insert-IsMap host host-IsDocumented ℕ_discrete u32_key byte_codec (λ k. k < 256 ^ 4)
      u32_key-IsFixed (from_name "empty") short (λ _. none) 3 9 world (empty-IsMap byte_codec)
      (omega arith) refl

-- A codec of booleans.
abbrev bool_from : Bytes → Option Bool
bool_from [] = none
bool_from (b ∷ rest) = some (b == 1)

abbrev bool_codec : Codec Bool
bool_codec = record {
  to_bytes = λ b. (if b then 1 else 0) ∷ [];
  from_bytes = bool_from;
  refusal = λ bytes. ApiError.formatting;
}

bool-Lossless : (b : Bool) → Lossless bool_codec b
bool-Lossless true = refl
bool-Lossless false = refl

unpaused : IsFlag host bool_codec (Key.uref 6) false world
unfolding Key-discrete ℕ_discrete
unpaused = record { coherent = world-IsCoherent; emptied = refl; name = refl; stored = refl }

pause-unpause_example :
    ((pause host bool_codec world).0 ≡ ok tt)
    × ((is_paused host bool_codec (pause host bool_codec world).1).0 ≡ ok true)
    × ((unpause host bool_codec world).0 ≡ err (pausable_code not_paused))
    × ((is_paused host bool_codec (unpause host bool_codec world).1).0 ≡ ok false)
pause-unpause_example =
    pause-unpause host bool_codec bool-Lossless (Key.uref 6) 7 host-IsCalledBy false world
      host-IsDocumented unpaused refl

read_key_missing_example :
    ((read_key host byte_codec (Key.uref 3) world).0 ≡ err ApiError.unhandled)
    × ((read_key host byte_codec (Key.uref 3) world).0 ≢ ok none)
unfolding Key-discrete ℕ_discrete
read_key_missing_example = read_key_missing host byte_codec (Key.uref 3) world (λ e. cc) refl
