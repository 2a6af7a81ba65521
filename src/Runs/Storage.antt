-- ===== src/Runs/Storage.antt =====
-- Runs over the host: named keys, the owner and the pause flag.
use text.Mathlib.Text.{◌==◌ as str_eq}
use casper_contract_kit.Base.{
  ℕ, ◌≡◌, ◌≢◌, refl, Bytes, bytes_eq_refl, Option, none, some, List, [], ◌∷◌, ◌==◌, inl, length, ok,
  err, if◌then◌else◌, arith,
}
use casper_contract_kit.Casper.{Key, ApiError}
use casper_contract_kit.Casper.Codec.{Codec}
use casper_contract_kit.Shim.{Dictionary, Ffi, insert_item}
use casper_contract_kit.Host.{Host, World, CallerInfo, IsDocumented, IsCoherent}
use casper_contract_kit.NamedKey.{from_name, put_dict, get_dict}
use casper_contract_kit.NamedKey.Ops.{Holds}
use casper_contract_kit.NamedKey.RoundTrip.{get_dict-put_dict}
use casper_contract_kit.Utils.CallerLaws.{IsCalledBy}
use casper_contract_kit.Ownable.{transfer_ownership, renounce_ownership}
use casper_contract_kit.Ownable.Rights.{others_refused}

-- A codec of one byte.
abbrev pub byte_from : Bytes → Option ℕ
byte_from [] = none
byte_from (b ∷ []) = some b
byte_from (b ∷ c ∷ rest) = none

abbrev pub byte_codec : Codec ℕ
byte_codec = record {
  to_bytes = λ n. n ∷ [];
  from_bytes = byte_from;
  refusal = λ bytes. ApiError.formatting;
}

abbrev found_item : Option Bytes → Ffi ℕ
found_item none e = (err ApiError.value_not_found, e)
found_item (some v) e = (ok (length v), record e { host_buffer = some v })

abbrev found_dictionary : Bytes → Option Dictionary → Ffi ℕ
found_dictionary key none e = (err ApiError.value_not_found, e)
found_dictionary key (some d) e = found_item (d key) e

-- The host when an account calls.
abbrev frame_of : ℕ → CallerInfo
frame_of a = record {
  kind = 0;
  account_hash = some a;
  contract_package = none;
  entity = none;
  contract = none;
}

abbrev frames_from : ℕ → Bytes → Option (List CallerInfo)
frames_from a [] = none
frames_from a (b ∷ rest) = some (frame_of a ∷ [])

abbrev pub host_of : ℕ → Host
host_of a = record {
  unknown_code = ApiError.unhandled;
  item_key_max = 64;
  key_size = λ key. 33;
  uref_to_bytes = λ addr. addr ∷ [];
  uref_from_bytes = byte_from;
  uref_refusal = λ bytes. ApiError.formatting;
  dictionary_get = λ seed key e. found_dictionary key (e.dictionaries seed) e;
  load_caller_information = λ action e. (ok (1, 1), record e { host_buffer = some (0 ∷ []) });
  callers_from_bytes = frames_from a;
  callers_refusal = λ bytes. ApiError.formatting;
  emit_message = λ topic bytes e. (ok tt, e);
}

pub host_of-IsDocumented : (a : ℕ) → IsDocumented (host_of a)
host_of-IsDocumented a = record {
  dictionary_get_found = λ e seed key d v h h' clear. rw (h, h') refl;
  dictionary_get_missing = λ e seed key d h h'. rw (h, h') refl;
}

pub host_of-IsCalledBy : (a : ℕ) → IsCalledBy (host_of a) a
host_of-IsCalledBy a = record {
  frame = frame_of a;
  bytes = 0 ∷ [];
  is_account = refl;
  account = refl;
  decodes = refl;
  loads = λ e. refl;
}

-- The account 7 calls.
abbrev pub host : Host
host = host_of 7

pub host-IsDocumented : IsDocumented host
host-IsDocumented = host_of-IsDocumented 7

pub host-IsCalledBy : IsCalledBy host 7
host-IsCalledBy = host_of-IsCalledBy 7

-- "items" stands for the dictionary 5, which has one item; "owner" for the account 7; "count" for a
-- URef that holds a byte.
abbrev items : Dictionary
items = insert_item (1 ∷ []) (9 ∷ []) (λ _. none)

abbrev pub world : World
world = record {
  env = record {
    address_generator = 0;
    database = λ k. none;
    args = λ name. none;
    named_keys = λ name.
        if str_eq name "items"
        then some (Key.uref 5)
        else if str_eq name "owner"
        then some (Key.account 7)
        else if str_eq name "count"
        then some (Key.uref 6)
        else none;
    host_buffer = none;
    dictionaries = λ seed. if seed == 5 then some items else none;
    trace = [];
  };
  cells = λ nk. none;
}

pub world-IsCoherent : IsCoherent host world
world-IsCoherent = record { cells = λ nk. inl refl; keys_fit = λ name key h. ground arith }

get_dict-put_dict_example :
    ((put_dict host byte_codec (from_name "items") (2 ∷ []) 8 world).0 ≡ ok tt)
    × ((get_dict host byte_codec
          (record { name = "items"; copy = 1 })
          (2 ∷ [])
          (put_dict host byte_codec (from_name "items") (2 ∷ []) 8 world).1).0
        ≡ ok (some 8))
get_dict-put_dict_example =
    get_dict-put_dict host host-IsDocumented byte_codec (from_name "items") world world-IsCoherent
      refl 1 (2 ∷ []) 8 5 items refl refl (omega arith) refl

nine : Holds byte_codec (items (1 ∷ [])) (some 9)
nine = rw (bytes_eq_refl (1 ∷ [])) (refl, λ e. cc)

-- The same contract, owned by the account 8.
abbrev others : World
others = record world {
  env = record world.env {
    named_keys = λ name. if str_eq name "owner" then some (Key.account 8) else none;
  };
}

others_refused_example :
    ((transfer_ownership host 9 others).0 ≢ ok tt)
    × ((transfer_ownership host 9 others).1.env.named_keys ≡ others.env.named_keys)
    × ((renounce_ownership host others).0 ≢ ok tt)
    × ((renounce_ownership host others).1.env.named_keys ≡ others.env.named_keys)
others_refused_example =
    others_refused host 7 host-IsCalledBy others
      (record { cells = λ nk. inl refl; keys_fit = λ name key h. ground arith }) refl 9
      (λ e. ground arith)

-- A call with the byte 7 as its argument "limit".
abbrev called : World
called = record world {
  env = record world.env { args = λ name. if str_eq name "limit" then some (7 ∷ []) else none };
}
