-- ===== src/Shim.antt =====
-- crates/casper-ffi-shim/src/lib.rs: the in-memory host. Pointers and lengths of the FFI are the
-- values that they pass; a return code is `ok`, or the error that `api_error::result_from` reads in
-- it. A function that the shim leaves as `todo!()` is a field of `Host`, see Host.antt.
mod State
pub mod Dispatch
use casper_contract_kit.Base.{
  ℕ, ◌+◌, ◌-◌, ◌^◌, String, Bytes, Bool, true, false, Option, none, some, List, [], ◌∷◌, ◌++◌,
  length, ltb, ◌==◌, if◌then◌else◌, Exec, ok, err, panic, throw, pure, gets, modify, bytes_eq,
}
use casper_contract_kit.Base.{◌>>=◌, ◌>>◌}
pub use State.*
use casper_contract_kit.Casper.{Key, Key-discrete, ApiError, StoredValue, cl_value}

-- `EnvImpl::next_address`: `+=` of a U256 panics on overflow.
unfoldable pub next_address : Ffi ℕ
next_address e =
    if ltb (e.address_generator + 1) (2 ^ 256)
    then ((ok (e.address_generator + 1), record e { address_generator = e.address_generator + 1 }))
    else panic e

-- `env.host_buffer.replace(value)`, and the panic when a value was still there.
unfoldable pub fill_host_buffer : Bytes → Ffi (Unit {0})
fill_host_buffer v e =
    let full = record e { host_buffer = some v } in
    elim e.host_buffer [ none ↦ (ok tt, full) | some _ ↦ panic full ]

module _ (unknown_code : ApiError) where
  -- `casper_read_value`: the size of the value, which is left in the host buffer. The code -1 of a
  -- missing value is no code of an ApiError that the caller tests for: `unknown_code`.
  read_stored : Option StoredValue → Ffi ℕ
  read_stored none = throw unknown_code
  read_stored (some (cl_value v)) = do fill_host_buffer v; pure (length v)
  read_stored (some StoredValue.other) = panic

  unfoldable pub casper_read_value : Key → Ffi ℕ
  unfolding fill_host_buffer read_stored
  casper_read_value key e =
      let e' = record_call HostFunction.casper_read_value e in read_stored (e.database key) e'

  -- `casper_dictionary_put`
  put_item : Bytes → Bytes → ℕ → Option Dictionary → Ffi (Unit {0})
  put_item key v addr none = throw unknown_code
  put_item key v addr (some d) =
      modify (λ e. record e {
        dictionaries = insert_dictionary addr (insert_item key v d) e.dictionaries;
      })

  unfoldable pub casper_dictionary_put : ℕ → Bytes → Bytes → Ffi (Unit {0})
  unfolding put_item
  casper_dictionary_put addr key v e = put_item key v addr (e.dictionaries addr) e

unfoldable pub casper_write : Key → Bytes → Ffi (Unit {0})
casper_write key v e =
    let e' = record_call HostFunction.casper_write e in
    (ok tt, record e' { database = insert_value key (cl_value v) e'.database })

unfoldable pub casper_new_uref : Bytes → Ffi ℕ
unfolding next_address
casper_new_uref v = do
  modify (record_call HostFunction.casper_new_uref)
  addr ← next_address
  modify (λ e. record e { database = insert_value (Key.uref addr) (cl_value v) e.database })
  pure addr

-- `casper_get_key` into a buffer of `output_size` bytes.
module _ (key_size : Key → ℕ) where
  copy_key : ℕ → Option Key → Ffi Key
  copy_key output_size none = throw ApiError.missing_key
  copy_key output_size (some key) =
      if ltb output_size (key_size key) then throw ApiError.buffer_too_small else pure key

  unfoldable pub casper_get_key : String → ℕ → Ffi Key
  unfolding copy_key
  casper_get_key name output_size e =
      copy_key output_size (e.named_keys name) (record_call (HostFunction.casper_get_key name) e)

-- 0 and 1 are `true` and `false`.
unfoldable pub casper_has_key : String → Ffi Bool
casper_has_key name e = (
  ok (elim (e.named_keys name) [ none ↦ false | some _ ↦ true ]),
  record_call (HostFunction.casper_has_key name) e,
)

unfoldable pub casper_put_key : String → Key → Ffi (Unit {0})
casper_put_key name key e =
    let e' = record_call (HostFunction.casper_put_key name key) e in
    (ok tt, record e' { named_keys = insert_name name key e'.named_keys })

unfoldable pub casper_remove_key : String → Ffi (Unit {0})
casper_remove_key name e =
    let e' = record_call (HostFunction.casper_remove_key name) e in
    (ok tt, record e' { named_keys = remove_name name e'.named_keys })

-- `casper_read_host_buffer` into a buffer of `dest_size` bytes; the assertion panics.
unfoldable pub casper_read_host_buffer : ℕ → Ffi Bytes
casper_read_host_buffer dest_size e =
    let e' = record e { host_buffer = none } in
    elim e.host_buffer [
      | none ↦ (err ApiError.host_buffer_empty, e')
      | some bytes ↦ if length bytes == dest_size then (ok bytes, e') else panic e'
    ]

-- `casper_new_dictionary`: the size of the URef, which is left in the host buffer.
module _ (uref_to_bytes : ℕ → Bytes) where
  unfoldable pub open_dictionary : ℕ → Env → Env
  open_dictionary addr e = record e {
    database = insert_value (Key.uref addr) (cl_value []) e.database;
    dictionaries = elim (e.dictionaries addr) [
      | none ↦ insert_dictionary addr (λ _. none) e.dictionaries
      | some _ ↦ e.dictionaries
    ];
  }

  unfoldable pub casper_new_dictionary : Ffi ℕ
  unfolding next_address open_dictionary fill_host_buffer
  casper_new_dictionary = do
    addr ← next_address
    modify (open_dictionary addr)
    fill_host_buffer (uref_to_bytes addr)
    pure (length (uref_to_bytes addr))

-- `casper_get_named_arg_size` and `casper_get_named_arg`
unfoldable pub casper_get_named_arg_size : String → Ffi ℕ
casper_get_named_arg_size name e =
    let e' = record_call HostFunction.casper_get_named_arg_size e in
    elim (e.args name) [ none ↦ throw ApiError.missing_argument e' | some v ↦ (ok (length v), e') ]

unfoldable pub casper_get_named_arg : String → ℕ → Ffi Bytes
casper_get_named_arg name dest_size e =
    let e' = record_call HostFunction.casper_get_named_arg e in
    elim (e.args name) [
      | none ↦ throw ApiError.missing_argument e'
      | some v ↦ if ltb dest_size (length v) then throw ApiError.buffer_too_small e' else (ok v, e')
    ]

-- `casper_create_purse`: a unit under the purse's URef, and a balance of zero.
module _ (u512_zero : Bytes) where
  unfoldable pub casper_create_purse : Ffi ℕ
  unfolding next_address
  casper_create_purse = do
    modify (record_call HostFunction.casper_create_purse)
    addr ← next_address
    modify (λ e. record e { database = insert_value (Key.uref addr) (cl_value []) e.database })
    modify (λ e. record e {
      database = insert_value (Key.balance addr) (cl_value u512_zero) e.database;
    })
    pure addr
