-- ===== src/Cep18/Contract.antt =====
-- The token as it stands in the storage of a contract: the statics of
-- crates/contract-extras/src/cep18.rs, events.rs and security.rs as an instance of TokenStore, and the
-- entry points that are about the storage itself. Serializers, hashes, base64 and hex, the event
-- library and the host's messages are the parameter `Setting`.
pub mod View
pub mod Reading
pub mod Writing
pub mod Updates
pub mod Seeing
pub mod SeeingValues
pub mod Accessors
pub mod Changes
pub mod Events
pub mod OptionalArguments
pub mod Faithful
pub mod Executions
pub mod Init
pub mod Install
use casper_contract_kit.Base.{
  ℕ, String, Bytes, Bool, true, false, not, ◌&&◌, Option, none, some, List, [], ◌∷◌, ◌⊎◌, inl, inr,
  if◌then◌else◌, Exec, Outcome, ok, err, stop, reverted, revert, pure, modify, ok_or,
  some_or_revert, some_or_panic, map_err, unwrap_or_revert, ◌>>=◌, ◌>>◌,
}
use casper_contract_kit.Casper.{Key, ApiError}
use casper_contract_kit.Casper.Codec.{Codec}
use casper_contract_kit.Host.{Host, World, NamedKey}
use casper_contract_kit.NamedKey.{from_name, read, write, get_dict, put_dict}
use casper_contract_kit.Cep18.Error.{
  Cep18Error, to_api_error, invalid_events_mode, failed_to_return_entry_point_result,
}
use casper_contract_kit.Cep18.Modalities.{
  EventsMode, TryFrom, events_mode_try_from, no_events, ces, native, native_bytes, mode_eq,
}
use casper_contract_kit.Cep18.Badge.{SecurityBadge, badge_codec}
use casper_contract_kit.Cep18.Event.{Event}
use casper_contract_kit.Cep18.Store.{Entry, TokenStore}
use casper_contract_kit.Cep18.Storage.{
  read_balance_from, write_balance_to, read_allowance_from, write_allowance_to, balance_item_key,
}
use casper_contract_kit.Cep18.Arguments.{
  get_immediate_caller, get_optional_named_arg_with_user_errors,
}

-- `MessagePayload`
pub data Payload : Type 0 where
  string bytes : Bytes → Payload

pub record Setting (L : Type 0) : Type 0 where
  pub host : Host
  -- `From<ContractPackageHash> for Key`
  pub package_key : ℕ → Key
  pub u256_codec : Codec ℕ
  pub u8_codec : Codec ℕ
  pub string_codec : Codec Bytes
  pub key_list_codec : Codec (List Key)
  pub key_to_bytes : Key → Bytes
  pub base64_encode : Bytes → Bytes
  pub blake2b : Bytes → Bytes
  pub hex_encode : Bytes → Bytes
  pub to_json : Event → Bytes
  -- `emit` and `init` of casper_event_standard, `get_key(EVENTS_DICT).is_some()`, and
  -- `runtime::emit_message` under the topic of events
  pub ces_emit : Event → L → L
  pub ces_init : L → L
  pub has_events_dict : L → Bool
  pub emit_message : Payload → L → ApiError ⊎ L

-- The state: the world of the contract, and what the event library and the host keep of events.
pub record Contract (L : Type 0) : Type 0 where
  pub world : World
  pub log : L

abbrev pub on_world : {L E A : Type 0} → Exec World ApiError E A → Exec (Contract L) ApiError E A
on_world m c = let (r, w) = m c.world in (r, record c { world = w })

abbrev pub on_log : {L E : Type 0} → (L → L) → Exec (Contract L) ApiError E (Unit {0})
on_log f c = (ok tt, record c { log = f c.log })

-- The statics of cep18.rs.
abbrev pub name_key : NamedKey
name_key = from_name "name"

abbrev pub symbol_key : NamedKey
symbol_key = from_name "symbol"

abbrev pub decimals_key : NamedKey
decimals_key = from_name "decimals"

abbrev pub total_supply_key : NamedKey
total_supply_key = from_name "total_supply"

abbrev pub events_mode_key : NamedKey
events_mode_key = from_name "events_mode"

abbrev pub enable_mint_burn_key : NamedKey
enable_mint_burn_key = from_name "enable_mint_burn"

abbrev pub security_badges_dict : NamedKey
security_badges_dict = from_name "security_badges"

module _ {L : Type 0} (setting : Setting L) where
  open setting use {
    host, package_key, u256_codec, u8_codec, string_codec, key_list_codec, key_to_bytes,
    base64_encode, blake2b, hex_encode, to_json, ces_emit, ces_init, has_events_dict, emit_message,
  }

  -- `name`, `symbol` and `decimals`
  initialized : {T : Type 0} → Codec T → NamedKey → Entry (Contract L) T
  initialized codec nk = do
    value ← map_err (λ _. failed_to_return_entry_point_result) (on_world (read host codec nk))
    some_or_panic value

  unfoldable pub name : Entry (Contract L) Bytes
  unfolding initialized
  name = initialized string_codec name_key

  unfoldable pub symbol : Entry (Contract L) Bytes
  unfolding initialized
  symbol = initialized string_codec symbol_key

  unfoldable pub decimals : Entry (Contract L) ℕ
  unfolding initialized
  decimals = initialized u8_codec decimals_key

  -- `emit_message(..).unwrap_or_revert()`
  unfoldable pub send : Payload → Entry (Contract L) (Unit {0})
  send payload c = elim (emit_message payload c.log) [
    | inl e ↦ (stop (reverted e), c)
    | inr l ↦ (ok tt, record c { log = l })
  ]

  -- The event under a mode.
  unfoldable pub emit_as : EventsMode → Event → Entry (Contract L) (Unit {0})
  emit_as no_events event = pure tt
  emit_as ces event = on_log (ces_emit event)
  emit_as native event = send (string (to_json event))
  emit_as native_bytes event = send (bytes (to_json event))

  abbrev pub mode_or_revert :
      {E : Type 0} → TryFrom EventsMode → Exec (Contract L) ApiError E EventsMode
  mode_or_revert (TryFrom.ok mode) = pure mode
  mode_or_revert (TryFrom.err e) = revert (to_api_error invalid_events_mode)

  unfoldable pub record_event_dictionary : Event → Entry (Contract L) (Unit {0})
  record_event_dictionary event = do
    stored ←
        unwrap_or_revert (λ _. to_api_error invalid_events_mode)
          (on_world (read host u8_codec events_mode_key))
    raw ← some_or_revert stored (to_api_error invalid_events_mode)
    mode ← mode_or_revert (events_mode_try_from raw)
    emit_as mode event

  unfoldable pub init_if_ces : EventsMode → Entry (Contract L) (Unit {0})
  init_if_ces mode c =
      if mode_eq ces mode && not (has_events_dict c.log) then on_log ces_init c else pure tt c

  unfoldable pub init_events : Entry (Contract L) (Unit {0})
  init_events = do
    stored ← map_err (λ _. invalid_events_mode) (on_world (read host u8_codec events_mode_key))
    raw ← ok_or stored invalid_events_mode
    mode ← mode_or_revert (events_mode_try_from raw)
    init_if_ces mode

  -- The item key of security.rs
  abbrev pub badge_item_key : Key → Bytes
  badge_item_key key = base64_encode (key_to_bytes key)

  abbrev pub contract_store : TokenStore (Contract L)
  contract_store = record {
    get_immediate_caller = on_world (get_immediate_caller host package_key);
    read_balance_from =
        λ k. on_world (read_balance_from key_to_bytes base64_encode host u256_codec k);
    write_balance_to =
        λ k v. on_world (write_balance_to key_to_bytes base64_encode host u256_codec k v);
    read_allowance_from =
        λ o s. on_world (read_allowance_from key_to_bytes blake2b hex_encode host u256_codec o s);
    write_allowance_to = λ o s v.
        on_world (write_allowance_to key_to_bytes blake2b hex_encode host u256_codec o s v);
    read_total_supply = on_world (read host u256_codec total_supply_key);
    write_total_supply = λ v. on_world (write host u256_codec total_supply_key v);
    read_enable_mint_burn = on_world (read host u8_codec enable_mint_burn_key);
    read_events_mode = on_world (read host u8_codec events_mode_key);
    write_events_mode = λ v. on_world (write host u8_codec events_mode_key v);
    get_badge = λ k. on_world (get_dict host badge_codec security_badges_dict (badge_item_key k));
    put_badge =
        λ k b. on_world (put_dict host badge_codec security_badges_dict (badge_item_key k) b);
    record_event_dictionary = record_event_dictionary;
    init_events = init_events;
    optional_key_list = λ name invalid.
        on_world (get_optional_named_arg_with_user_errors key_list_codec name invalid);
  }
