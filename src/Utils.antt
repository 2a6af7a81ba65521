-- ===== src/Utils.antt =====
-- crates/contract-api/src/utils.rs: the helpers over the host functions.
pub mod Laws
pub mod Caller
pub mod CallerLaws
pub mod Missing
pub mod Fresh
use casper_contract_kit.Base.{
  ℕ, String, Bytes, Bool, true, false, Option, none, some, List, [], ◌∷◌, length, ltb, ◌==◌,
  if◌then◌else◌, Exec, ok, err, stop, reverted, panic, throw, revert, pure, gets, modify, ok_or,
  unwrap_or_revert,
}
use casper_contract_kit.Base.{◌>>=◌, ◌>>◌}
use casper_contract_kit.Casper.{Key, ApiError, into_uref}
use casper_contract_kit.Casper.Codec.{Codec}
use casper_contract_kit.Shim.{
  casper_get_key, casper_put_key, casper_has_key, casper_remove_key, casper_read_value,
  casper_write, casper_new_uref, casper_read_host_buffer, casper_new_dictionary,
  casper_dictionary_put,
}
use casper_contract_kit.Host.{Host, World, Action, ffi}

module _ (host : Host) where
  -- `read_host_buffer`, through `read_host_buffer_into`
  unfoldable pub read_host_buffer : ℕ → Action ApiError Bytes
  read_host_buffer size = ffi (casper_read_host_buffer size)

  -- `get_key`, with its buffer of 64 bytes
  unfoldable pub found_key : Action ApiError Key → Action ApiError (Option Key)
  found_key m w =
      let (r, w') = m w in
      elim r [
        | ok key ↦ (ok (some key), w')
        | err e ↦ (elim e [ ApiError.missing_key ↦ ok none | e' ↦ err e' ], w')
        | stop x ↦ (stop x, w')
      ]

  unfoldable pub get_key : String → Action ApiError (Option Key)
  unfolding found_key
  get_key name = found_key (ffi (casper_get_key host.key_size name 64))

  unfoldable pub put_key : String → Key → Action ApiError (Unit {0})
  put_key name key = ffi (casper_put_key name key)

  unfoldable pub has_key : String → Action ApiError Bool
  has_key name = ffi (casper_has_key name)

  unfoldable pub remove_key : String → Action ApiError (Unit {0})
  remove_key name = ffi (casper_remove_key name)

  -- `get_uref`: a missing name and a key that is no URef are one error.
  unfoldable pub get_uref : String → Action ApiError (Option ℕ)
  get_uref name = do
    key ← get_key name
    uref ← ok_or (elim key [ none ↦ none | some k ↦ into_uref k ]) ApiError.unexpected_key_variant
    pure (some uref)

  -- `Err(ApiError::ValueNotFound) => return Ok(None)`
  unfoldable pub found_value : Action ApiError ℕ → Action ApiError (Option ℕ)
  found_value m w =
      let (r, w') = m w in
      elim r [
        | ok size ↦ (ok (some size), w')
        | err e ↦ (elim e [ ApiError.value_not_found ↦ ok none | e' ↦ err e' ], w')
        | stop x ↦ (stop x, w')
      ]

  -- the bytes that a call has announced by their size
  unfoldable pub buffered : Option ℕ → Action ApiError (Option Bytes)
  buffered none = pure none
  buffered (some size) = do bytes ← read_host_buffer size; pure (some bytes)

  module _ {T : Type 0} (codec : Codec T) where
    -- `bytesrepr::deserialize(bytes)?`
    unfoldable pub deserialize : Option Bytes → Action ApiError (Option T)
    deserialize none = pure none
    deserialize (some bytes) = do
      value ← ok_or (codec.from_bytes bytes) (codec.refusal bytes)
      pure (some value)

    unfoldable pub read_key : Key → Action ApiError (Option T)
    unfolding found_value buffered deserialize
    read_key key = do
      size ← found_value (ffi (casper_read_value host.unknown_code key))
      bytes ← buffered size
      deserialize bytes

    unfoldable pub write_key : T → Key → Action ApiError (Unit {0})
    write_key value key = ffi (casper_write key (codec.to_bytes value))

    -- `new_uref_key`
    unfoldable pub new_uref_key : T → Action ApiError Key
    new_uref_key value = do
      addr ← ffi (casper_new_uref (codec.to_bytes value))
      pure (Key.uref addr)

  -- `dictionary_put_clvalue`: a key that is too long reverts.
  unfoldable pub dictionary_put_clvalue : ℕ → Bytes → Bytes → Action ApiError (Unit {0})
  dictionary_put_clvalue seed key value =
      if ltb host.item_key_max (length key)
      then revert ApiError.dictionary_item_key_exceeds_length
      else ffi (casper_dictionary_put host.unknown_code seed key value)

  -- `dictionary_get_bytes`: any error but a missing value reverts.
  unfoldable pub dictionary_get_bytes : ℕ → Bytes → Action ApiError (Option Bytes)
  unfolding found_value buffered
  dictionary_get_bytes seed key =
      if ltb host.item_key_max (length key)
      then revert ApiError.dictionary_item_key_exceeds_length
      else unwrap_or_revert (λ e. e)
          (do size ← found_value (ffi (host.dictionary_get seed key)); buffered size)

  -- `new_dictionary_uref` and `new_dictionary_key`
  unfoldable pub new_dictionary_uref : Action ApiError ℕ
  new_dictionary_uref = do
    size ← ffi (casper_new_dictionary host.uref_to_bytes)
    bytes ← read_host_buffer size
    ok_or (host.uref_from_bytes bytes) (host.uref_refusal bytes)

  unfoldable pub new_dictionary_key : Action ApiError Key
  new_dictionary_key = do uref ← new_dictionary_uref; pure (Key.uref uref)
