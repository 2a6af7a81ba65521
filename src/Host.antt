-- ===== src/Host.antt =====
-- What contract code runs on: the shim's state, the caches of the static `NamedKey`s, and the host
-- functions and serializers that are not in the repository.
use casper_contract_kit.Base.{
  ℕ, ◌≤◌, ◌≡◌, ◌⊎◌, String, Bytes, Bool, Option, none, some, List, length, ◌==◌, ◌&&◌,
  if◌then◌else◌, Exec, ok, err,
}
use casper_contract_kit.Casper.{Key, ApiError, EntityAddr}
use casper_contract_kit.Shim.{Env, Ffi, Dictionary}
use text.Mathlib.Text.{◌==◌ as str_eq}

-- `Cell<Option<Result<Option<Key>, ApiError>>>` once it is filled.
pub data CachedKey : Type 0 where
  resolved : Option Key → CachedKey
  failed : ApiError → CachedKey

-- `NamedKey`: a static of a contract has a name of its own, and copy 0 of its cell; `clone` makes
-- another copy.
pub record NamedKey : Type 0 where
  pub name : String
  pub copy : ℕ

-- The state of one execution. A fresh execution has empty cells.
pub record World : Type 0 where
  pub env : Env
  pub cells : NamedKey → Option CachedKey

abbrev pub same_cell : NamedKey → NamedKey → Bool
same_cell a b = (a.copy == b.copy) && str_eq a.name b.name

abbrev pub set_cell : NamedKey → Option CachedKey → World → World
set_cell nk c w = record w { cells = λ j. if same_cell nk j then c else w.cells j }

-- One frame of the call stack, `CallerInfo`, by the fields that the program reads: its kind and
-- the optional account, contract package, entity and contract of field index 0, 2, 3 and 4.
pub record CallerInfo : Type 0 where
  pub kind : ℕ
  pub account_hash : Option ℕ
  pub contract_package : Option ℕ
  pub entity : Option EntityAddr
  pub contract : Option ℕ

-- `CallerAction`
pub data CallerAction : Type 0 where
  initiator immediate full_stack : CallerAction

-- The host functions that the shim does not implement, and the serializers of `casper_types`; a
-- `refusal` is the error of bytes that do not parse, as an ApiError.
pub record Host : Type 0 where
  -- the error that `api_error::result_from` makes of the code -1
  pub unknown_code : ApiError
  -- `DICTIONARY_ITEM_KEY_MAX_LENGTH`
  pub item_key_max : ℕ
  -- the serialized length of a key
  pub key_size : Key → ℕ
  pub uref_to_bytes : ℕ → Bytes
  pub uref_from_bytes : Bytes → Option ℕ
  pub uref_refusal : Bytes → ApiError
  -- `casper_dictionary_get`: the size of the value, which is left in the host buffer
  pub dictionary_get : ℕ → Bytes → Ffi ℕ
  -- `casper_load_caller_information`: the number of frames, and the size of their serialization,
  -- which is left in the host buffer
  pub load_caller_information : CallerAction → Ffi (ℕ × ℕ)
  pub callers_from_bytes : Bytes → Option (List CallerInfo)
  pub callers_refusal : Bytes → ApiError
  -- `casper_emit_message` under a topic
  pub emit_message : String → Bytes → Ffi (Unit {0})

-- A contract function with errors `E`; a revert carries an ApiError.
abbrev pub Action : Type 0 → Type 0 → Type 0
Action E A = Exec World ApiError E A

-- A call of a host function.
abbrev pub ffi : {A : Type 0} → Ffi A → Action ApiError A
ffi call w = let (r, e) = call w.env in (r, record w { env = e })

-- What the missing host functions and serializers are documented to do.
pub record IsDocumented (host : Host) : Type 0 where
  pub dictionary_get_found :
      (e : Env) (seed : ℕ) (key : Bytes) (d : Dictionary) (v : Bytes)
      → e.dictionaries seed ≡ some d
      → d key ≡ some v
      → e.host_buffer ≡ none
      → host.dictionary_get seed key e ≡ (ok (length v), record e { host_buffer = some v })
  pub dictionary_get_missing :
      (e : Env) (seed : ℕ) (key : Bytes) (d : Dictionary)
      → e.dictionaries seed ≡ some d
      → d key ≡ none
      → host.dictionary_get seed key e ≡ (err ApiError.value_not_found, e)

-- All of the host's state but the trace is the same.
pub record SameHost (e e' : Env) : Type 0 where
  pub address_generator : e'.address_generator ≡ e.address_generator
  pub database : e'.database ≡ e.database
  pub args : e'.args ≡ e.args
  pub named_keys : e'.named_keys ≡ e.named_keys
  pub host_buffer : e'.host_buffer ≡ e.host_buffer
  pub dictionaries : e'.dictionaries ≡ e.dictionaries

-- No cell disagrees with the named keys, and every named key fits the buffer of `get_key`.
pub record IsCoherent (host : Host) (w : World) : Type 0 where
  pub cells :
      (nk : NamedKey)
      → (w.cells nk ≡ none) ⊎ (w.cells nk ≡ some (resolved (w.env.named_keys nk.name)))
  pub keys_fit :
      (name : String) (key : Key) → w.env.named_keys name ≡ some key → host.key_size key ≤ 64
