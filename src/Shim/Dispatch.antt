-- ===== src/Shim/Dispatch.antt =====
-- crates/casper-ffi-shim/src/lib.rs: environments are built, stacked and used by contract code. An `Env`
-- of the source is a handle to a shared `EnvImpl`: here the number of the environment that it shares.
pub mod Scoped
use casper_contract_kit.Base.{
  ℕ, String, Bytes, Option, none, some, List, [], ◌∷◌, ◌==◌, if◌then◌else◌, Exec, Outcome, ok, stop,
  reverted, panic, pure, modify, ◌>>=◌, ◌>>◌,
}
use casper_contract_kit.Casper.{Key, ApiError, StoredValue}
use casper_contract_kit.Shim.{Env, HostFunction, Dictionary, insert_value, insert_name}

-- `EnvBuilder`
pub record EnvBuilder : Type 0 where
  pub address_generator : ℕ
  pub database : Key → Option StoredValue
  pub args : String → Option Bytes
  pub named_keys : String → Option Key
  pub dictionaries : ℕ → Option Dictionary

-- `EnvBuilder::new`
abbrev pub new_builder : EnvBuilder
new_builder = record {
  address_generator = 0;
  database = λ k. none;
  args = λ name. none;
  named_keys = λ name. none;
  dictionaries = λ seed. none;
}

abbrev pub with_address_generator : ℕ → EnvBuilder → EnvBuilder
with_address_generator address_generator b = record b { address_generator = address_generator }

abbrev pub with_database : (Key → Option StoredValue) → EnvBuilder → EnvBuilder
with_database database b = record b { database = database }

abbrev pub with_args : (String → Option Bytes) → EnvBuilder → EnvBuilder
with_args args b = record b { args = args }

-- The value by its bytes, as in all CLValues.
abbrev pub with_arg : String → Bytes → EnvBuilder → EnvBuilder
with_arg name value b = record b { args = insert_name name value b.args }

abbrev pub with_storage : Key → StoredValue → EnvBuilder → EnvBuilder
with_storage key value b = record b { database = insert_value key value b.database }

abbrev pub with_named_keys : (String → Option Key) → EnvBuilder → EnvBuilder
with_named_keys named_keys b = record b { named_keys = named_keys }

abbrev pub with_named_key : String → Key → EnvBuilder → EnvBuilder
with_named_key name key b = record b { named_keys = insert_name name key b.named_keys }

abbrev pub build : EnvBuilder → Env
build b = record {
  address_generator = b.address_generator;
  database = b.database;
  args = b.args;
  named_keys = b.named_keys;
  host_buffer = none;
  dictionaries = b.dictionaries;
  trace = [];
}

-- `RevertError`
pub record RevertError : Type 0 where
  pub status : ℕ
  pub api_error : ApiError

-- What a thread has: the environments, the stack `ENV` of handles, its top first, and `REVERT_ERROR`.
pub record Machine : Type 0 where
  pub envs : ℕ → Env
  pub stack : List ℕ
  pub revert_error : Option RevertError

-- Code on a thread ends with a value, or stops with a panic or an abort.
abbrev pub Thread : Type 0 → Type 0 → Type 0
Thread E A = Exec Machine ApiError E A

abbrev pub set_env : ℕ → Env → Machine → Machine
set_env h e m = record m { envs = λ j. if h == j then e else m.envs j }

-- `Env::named_keys` and `Env::trace`, which clears the trace.
abbrev pub env_named_keys : {E : Type 0} → ℕ → Thread E (String → Option Key)
env_named_keys h m = (ok (m.envs h).named_keys, m)

abbrev pub env_trace : {E : Type 0} → ℕ → Thread E (List HostFunction)
env_trace h m = (ok (m.envs h).trace, set_env h (record (m.envs h) { trace = [] }) m)

-- `check_revert` and `clear_revert`
abbrev pub check_revert : {E : Type 0} → Thread E (Option RevertError)
check_revert m = (ok m.revert_error, m)

abbrev pub clear_revert : {E : Type 0} → Thread E (Unit {0})
clear_revert = modify (λ m. record m { revert_error = none })

-- `ApiError::from(status)` is a parameter. The process aborts.
unfoldable pub casper_revert : {E A : Type 0} → (ℕ → ApiError) → ℕ → Thread E A
casper_revert from_status status m =
    let api_error = from_status status in
    (
      stop (reverted api_error),
      record m { revert_error = some (record { status = status; api_error = api_error }) },
    )

abbrev pub pop_back : List ℕ → List ℕ
pop_back [] = []
pop_back (h ∷ rest) = rest

-- A stop of the function unwinds past `pop_back`.
unfoldable pub dispatch_with : {E : Type 0} → ℕ → (ℕ → Thread E (Unit {0})) → Thread E (Unit {0})
dispatch_with new_env func = do
  modify (λ m. record m { stack = new_env ∷ m.stack })
  clear_revert
  func new_env
  modify (λ m. record m { stack = pop_back m.stack })

-- The environment on the top of the stack, and what the call makes of it.
unfoldable pub on_env : {E A : Type 0} → List ℕ → Exec Env ApiError E A → Thread E A
on_env [] func = panic
on_env (h ∷ rest) func = λ m. let (r, e) = func (m.envs h) in (r, set_env h e m)

unfoldable pub with_current_env : {E A : Type 0} → Exec Env ApiError E A → Thread E A
with_current_env func m = on_env m.stack func m
