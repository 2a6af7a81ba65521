-- ===== src/Cep18/Contract/Install.antt =====
-- crates/contract-extras/src/cep18.rs: `install_contract` and `upgrade`. What they call of
-- casper_contract (arguments, keys, versions of contracts, calls) is the parameter `Deployer`.
pub mod Values
use Prim.Native.String.{◌++◌}
use casper_contract_kit.Base.{
  ℕ, String, Bytes, Bool, true, false, Option, none, some, List, [], ◌∷◌, Exec, ok, revert, pure,
  some_or_revert, unwrap_or, unwrap_or_revert, ◌>>=◌, ◌>>◌,
}
use casper_contract_kit.Casper.{Key, EntityAddr, ApiError, into_uref}
use casper_contract_kit.Casper.Codec.{Codec}
use casper_contract_kit.Host.{Host, World, Action, NamedKey, ffi}
use casper_contract_kit.Shim.{casper_get_key}
use casper_contract_kit.NamedKey.Values.{append_value}
use casper_contract_kit.Cep18.Error.{
  Cep18Error, to_api_error, failed_to_create_dictionary, failed_to_get_package_key,
  failed_to_get_old_package_key, failed_to_get_old_contract_hash_key,
  missing_package_hash_for_upgrade, missing_contract_hash_for_upgrade, missing_version_contract_key,
  invalid_version_contract_key, failed_to_disable_contract_version, invalid_events_mode,
  invalid_admin_list, invalid_minter_list, invalid_enable_mb_flag, invalid_key_type,
}
use casper_contract_kit.Cep18.Store.{Entry, TokenStore}
use casper_contract_kit.Cep18.Arguments.{get_optional_named_arg_with_user_errors}
use casper_contract_kit.Cep18.EntryPoints.{EntryPoints, entry_points}
use casper_contract_kit.Cep18.Contract.{
  Setting, Contract, on_world, contract_store, name_key, symbol_key, decimals_key, total_supply_key,
  events_mode_key, enable_mint_burn_key,
}

-- The arguments of the call of `init`.
pub record InitArgs : Type 0 where
  pub total_supply : ℕ
  pub package_hash : Key
  pub contract_hash : Key
  pub events_mode : ℕ
  pub admin_list : Option (List Key)
  pub minter_list : Option (List Key)

-- A contract is its hash and its version. `with_topic` tells whether the topic of events is added.
pub record Deployer (L : Type 0) : Type 0 where
  pub string_arg : String → Entry (Contract L) Bytes
  pub u8_arg : String → Entry (Contract L) ℕ
  pub u256_arg : String → Entry (Contract L) ℕ
  pub get_key : String → Entry (Contract L) (Option Key)
  pub put_key : String → Key → Entry (Contract L) (Unit {0})
  pub new_uref : Bytes → Entry (Contract L) ℕ
  pub read_string : ℕ → Entry (Contract L) (Option (Option Bytes))
  pub new_contract :
      EntryPoints
      → List (String × Key)
      → (package_name access_name : String) (with_topic : Bool) → Entry (Contract L) (ℕ × ℕ)
  pub add_contract_version :
      (package_hash : ℕ)
      → EntryPoints
      → List (String × Key)
      → (with_topic : Bool) → Entry (Contract L) (ℕ × ℕ)
  -- `Result<(), Error>`
  pub disable_contract_version :
      (package_hash contract_hash : ℕ) → Exec (Contract L) ApiError ℕ (Unit {0})
  pub version_text : ℕ → Entry (Contract L) Bytes
  pub call_init : ℕ → InitArgs → Entry (Contract L) (Unit {0})
  pub call_change_events_mode : ℕ → ℕ → Entry (Contract L) (Unit {0})

-- The names of named keys: `format!("{PREFIX_CEP18}_{..}_{name}")`
abbrev pub package_name : String → String
package_name name = "cep18_contract_package_" ++ name

abbrev pub access_name : String → String
access_name name = "cep18_contract_package_access_" ++ name

abbrev pub contract_name : String → String
contract_name name = "cep18_contract_hash_" ++ name

abbrev pub version_name : String → String
version_name name = "cep18_contract_version_" ++ name

-- `get_key_with_user_errors` and `get_uref_with_user_errors`: the host writes the bytes of the key,
-- and the contract parses them.
module _ (host : Host) (key_codec : Codec Key) (key_max : ℕ) where
  unfoldable pub get_key_with_user_errors : String → Cep18Error → Cep18Error → Entry World Key
  get_key_with_user_errors name missing invalid = do
    key ←
        unwrap_or_revert (λ e. elim e [ ApiError.missing_key ↦ to_api_error missing | e' ↦ e' ])
          (ffi (casper_get_key host.key_size name key_max))
    some_or_revert (key_codec.from_bytes (key_codec.to_bytes key)) (to_api_error invalid)

  unfoldable pub get_uref_with_user_errors : String → Cep18Error → Cep18Error → Entry World ℕ
  get_uref_with_user_errors name missing invalid = do
    key ← get_key_with_user_errors name missing invalid
    some_or_revert (into_uref key) (to_api_error invalid_key_type)

-- What an installation stores for the contract.
pub record Stored : Type 0 where
  pub name : Bytes
  pub symbol : Bytes
  pub decimals : ℕ
  pub total_supply : ℕ
  pub events_mode : ℕ
  pub enable_mint_burn : ℕ

module _ {L : Type 0} (setting : Setting L) where
  open setting use {host, u256_codec, u8_codec, string_codec, key_list_codec}

  -- `NAME.get_or_init(..)..append_to_named_keys(&mut named_keys)` and so on
  unfoldable pub append_all : Stored → Action ApiError (List (String × Key))
  append_all v =
      append_value host string_codec name_key v.name []
      >>= append_value host string_codec symbol_key v.symbol
      >>= append_value host u8_codec decimals_key v.decimals
      >>= append_value host u256_codec total_supply_key v.total_supply
      >>= append_value host u8_codec events_mode_key v.events_mode
      >>= append_value host u8_codec enable_mint_burn_key v.enable_mint_burn

  abbrev optional_u8 : String → Cep18Error → Entry (Contract L) (Option ℕ)
  optional_u8 name invalid =
      on_world (get_optional_named_arg_with_user_errors u8_codec name invalid)

  module _ (deployer : Deployer L) (string_bytes : String → Bytes) where
    unfoldable pub install_contract : String → Entry (Contract L) (Unit {0})
    install_contract name = do
      symbol ← deployer.string_arg "symbol"
      decimals ← deployer.u8_arg "decimals"
      total_supply ← deployer.u256_arg "total_supply"
      given_mode ← optional_u8 "events_mode" invalid_events_mode
      admin_list ← (contract_store setting).optional_key_list "admin_list" invalid_admin_list
      minter_list ← (contract_store setting).optional_key_list "minter_list" invalid_minter_list
      given_flag ← optional_u8 "enable_mint_burn" invalid_enable_mb_flag
      let events_mode = unwrap_or 0 given_mode
      named_keys ←
          unwrap_or_revert (λ _. to_api_error failed_to_create_dictionary)
            (on_world (
              append_all (record {
                name = string_bytes name;
                symbol = symbol;
                decimals = decimals;
                total_supply = total_supply;
                events_mode = events_mode;
                enable_mint_burn = unwrap_or 0 given_flag;
              })))
      (contract_hash, contract_version) ←
          deployer.new_contract entry_points named_keys (package_name name) (access_name name) true
      found ← deployer.get_key (package_name name)
      package_hash ← some_or_revert found (to_api_error failed_to_get_package_key)
      deployer.put_key (contract_name name) (Key.hash contract_hash)
      version ← deployer.version_text contract_version
      version_uref ← deployer.new_uref version
      deployer.put_key (version_name name) (Key.uref version_uref)
      deployer.call_init contract_hash (record {
        total_supply = total_supply;
        package_hash = package_hash;
        contract_hash = Key.hash contract_hash;
        events_mode = events_mode;
        admin_list = admin_list;
        minter_list = minter_list;
      })

    -- The two `match`es on keys.
    unfoldable pub package_of : Key → Entry (Contract L) ℕ
    package_of (Key.hash h) = pure h
    package_of (Key.addressable_entity (EntityAddr.smart_contract h)) = pure h
    package_of (Key.smart_contract h) = pure h
    package_of key = revert (to_api_error missing_package_hash_for_upgrade)

    unfoldable pub contract_of : Key → Entry (Contract L) ℕ
    contract_of (Key.hash h) = pure h
    contract_of (Key.addressable_entity (EntityAddr.smart_contract h)) = pure h
    contract_of key = revert (to_api_error missing_contract_hash_for_upgrade)

    -- `version_value.is_empty()`
    abbrev is_unversioned : Option (Option Bytes) → Bool
    is_unversioned (some (some (b ∷ text))) = false
    is_unversioned (some (some [])) = true
    is_unversioned (some none) = true
    is_unversioned none = true

    abbrev change_mode : ℕ → Option ℕ → Entry (Contract L) (Unit {0})
    change_mode contract_hash none = pure tt
    change_mode contract_hash (some mode) = deployer.call_change_events_mode contract_hash mode

    unfoldable pub upgrade : Codec Key → ℕ → String → Entry (Contract L) (Unit {0})
    upgrade key_codec key_max name = do
      found ← deployer.get_key (package_name name)
      package_key ← some_or_revert found (to_api_error failed_to_get_old_package_key)
      contract_package_hash ← package_of package_key
      previous ← deployer.get_key (contract_name name)
      previous_key ← some_or_revert previous (to_api_error failed_to_get_old_contract_hash_key)
      previous_contract_hash ← contract_of previous_key
      events_mode ← optional_u8 "events_mode" invalid_events_mode
      version_uref ← on_world (
          get_uref_with_user_errors host key_codec key_max (version_name name)
            missing_version_contract_key invalid_version_contract_key)
      version_value ← deployer.read_string version_uref
      (contract_hash, contract_version) ←
          deployer.add_contract_version contract_package_hash entry_points []
            (is_unversioned version_value)
      unwrap_or_revert (λ _. to_api_error failed_to_disable_contract_version)
          (deployer.disable_contract_version contract_package_hash previous_contract_hash)
      deployer.put_key (contract_name name) (Key.hash contract_hash)
      version ← deployer.version_text contract_version
      new_version ← deployer.new_uref version
      deployer.put_key (version_name name) (Key.uref new_version)
      change_mode contract_hash events_mode
