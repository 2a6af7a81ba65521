-- ===== src/Shim/State.antt =====
-- crates/casper-ffi-shim/src/lib.rs: the state of the in-memory host, `EnvImpl`.
use casper_contract_kit.Base.{
  ℕ, String, Bytes, Option, none, some, List, [], ◌∷◌, ◌++◌, ◌==◌, if◌then◌else◌, Exec, bytes_eq,
}
use casper_contract_kit.Casper.{Key, Key-discrete, ApiError, StoredValue}
use mathlib.Core.Logic.{ite}
use text.Mathlib.Text.{◌==◌ as str_eq}

-- `HostFunction`, the entries of the trace that the modelled functions write.
pub data HostFunction : Type 0 where
  casper_read_value casper_write casper_new_uref : HostFunction
  casper_get_key casper_has_key casper_remove_key : String → HostFunction
  casper_put_key : String → Key → HostFunction
  casper_create_purse casper_get_named_arg_size casper_get_named_arg : HostFunction

-- One dictionary: item keys to values.
abbrev pub Dictionary : Type 0
Dictionary = Bytes → Option Bytes

-- `EnvImpl`. A BTreeMap is the function that looks a key up.
pub record Env : Type 0 where
  pub address_generator : ℕ
  pub database : Key → Option StoredValue
  pub args : String → Option Bytes
  pub named_keys : String → Option Key
  pub host_buffer : Option Bytes
  pub dictionaries : ℕ → Option Dictionary
  pub trace : List HostFunction

abbrev pub Ffi : Type 0 → Type 0
Ffi A = Exec Env ApiError ApiError A

-- `BTreeMap::insert` and `remove`, for each kind of key.
abbrev pub insert_value : Key → StoredValue → (Key → Option StoredValue) → Key → Option StoredValue
insert_value k v m j = ite (Key-discrete k j) (some v) (m j)

abbrev pub insert_name {ℓ} : {V : Type ℓ} → String → V → (String → Option V) → String → Option V
insert_name k v m j = if str_eq k j then some v else m j

abbrev pub remove_name {ℓ} : {V : Type ℓ} → String → (String → Option V) → String → Option V
remove_name k m j = if str_eq k j then none else m j

abbrev pub insert_item : Bytes → Bytes → Dictionary → Dictionary
insert_item k v d j = if bytes_eq k j then some v else d j

abbrev pub insert_dictionary : ℕ → Dictionary → (ℕ → Option Dictionary) → ℕ → Option Dictionary
insert_dictionary a d m b = if a == b then some d else m b

abbrev pub record_call : HostFunction → Env → Env
record_call f e = record e { trace = e.trace ++ (f ∷ []) }
