-- ===== src/Casper.antt =====
-- The values of `casper_types` that the program passes around. An address or hash of 32 bytes is the
-- number that it writes; the access rights of a URef and the type tag of a CLValue are read by no
-- code that is modelled, so a URef is its address and a CLValue its inner bytes.
pub mod Codec
use casper_contract_kit.Base.{ℕ, Bool, true, false, Bytes, Option, none, some, List}
use native.Mathlib.Decide.{ℕ_discrete}
use mathlib.Core.Logic.{ite}

-- `EntityAddr`
pub data EntityAddr : Type 0 where
  system account smart_contract : ℕ → EntityAddr

-- `Key`: the variants that the program names, and any other.
pub data Key : Type 0 where
  account : ℕ → Key
  hash : ℕ → Key
  uref : ℕ → Key
  addressable_entity : EntityAddr → Key
  smart_contract : ℕ → Key
  balance : ℕ → Key
  other : ℕ → Key

pub EntityAddr-discrete : Discrete EntityAddr
EntityAddr-discrete = hlevel ℕ_discrete

unfoldable pub Key-discrete : Discrete Key
Key-discrete = hlevel (ℕ_discrete, EntityAddr-discrete)

-- `a == b` on keys
abbrev pub key_eq : Key → Key → Bool
key_eq a b = ite (Key-discrete a b) true false

-- `Key::into_uref`
abbrev pub into_uref : Key → Option ℕ
into_uref (Key.uref addr) = some addr
into_uref (Key.account _) = none
into_uref (Key.hash _) = none
into_uref (Key.addressable_entity _) = none
into_uref (Key.smart_contract _) = none
into_uref (Key.balance _) = none
into_uref (Key.other _) = none

-- `ApiError`: the variants that the program names, and any other.
pub data ApiError : Type 0 where
  missing_argument : ApiError
  missing_key : ApiError
  value_not_found : ApiError
  unexpected_key_variant : ApiError
  invalid_caller_info_request : ApiError
  unhandled : ApiError
  host_buffer_empty : ApiError
  buffer_too_small : ApiError
  dictionary_item_key_exceeds_length : ApiError
  invalid_argument : ApiError
  formatting : ApiError
  left_over_bytes : ApiError
  user : ℕ → ApiError
  other : ℕ → ApiError

-- `StoredValue`: a CLValue, or a value of another kind.
pub data StoredValue : Type 0 where
  cl_value : Bytes → StoredValue
  other : StoredValue
