-- ===== src/Cep18/Contract/Init.antt =====
-- crates/contract-extras/src/cep18.rs: `init`, the entry point that an installation calls once.
use casper_contract_kit.Base.{
  ℕ, ◌≤◌, ◌≡◌, String, Option, none, some, List, [], ◌∷◌, ok, err, stop, throw, pure, map_err,
  unwrap_or_revert, ◌>>=◌, ◌>>◌, arith,
}
use casper_contract_kit.Casper.{Key}
use casper_contract_kit.Host.{NamedKey}
use casper_contract_kit.Shim.{HostFunction, record_call}
use casper_contract_kit.Utils.{get_key, put_key}
use casper_contract_kit.Utils.Laws.{get_key_eq}
use casper_contract_kit.NamedKey.{clone}
use casper_contract_kit.NamedKey.Create.{create}
use casper_contract_kit.Cep18.Error.{
  already_initialized, failed_to_create_dictionary, failed_to_read_from_storage,
  failed_to_insert_to_security_list, invalid_admin_list, invalid_minter_list,
}
use casper_contract_kit.Cep18.Badge.{SecurityBadge, admin, minter}
use casper_contract_kit.Cep18.Event.{Event}
use casper_contract_kit.Cep18.Store.{Entry}
use casper_contract_kit.Cep18.Storage.{balances_dict, allowances_dict}
use casper_contract_kit.Cep18.Contract.{
  Setting, Contract, on_world, contract_store, security_badges_dict,
}

-- `runtime::get_named_arg` at the types of `init`, and `runtime::put_key`
pub record Runtime (L : Type 0) : Type 0 where
  pub key_arg : String → Entry (Contract L) Key
  pub u256_arg : String → Entry (Contract L) ℕ
  pub put_key : String → Key → Entry (Contract L) (Unit {0})

module _ {L : Type 0} (setting : Setting L) (runtime : Runtime L) where
  open setting use {host}

  -- A dictionary that is there under its name afterwards.
  abbrev create_dictionary : NamedKey → Entry (Contract L) NamedKey
  create_dictionary nk = map_err (λ _. failed_to_create_dictionary) (on_world (create host nk))

  -- `BALANCES_DICT.clone()`
  abbrev create_balances : Entry (Contract L) NamedKey
  create_balances =
      map_err (λ _. failed_to_create_dictionary) (on_world (clone balances_dict 1 >>= create host))

  -- `for minter in minter_list { security_badges_dict.put_dict(..) }`
  unfoldable pub put_badges : SecurityBadge → List Key → Entry (Contract L) (Unit {0})
  put_badges badge [] = pure tt
  put_badges badge (key ∷ list) =
      map_err (λ _. failed_to_insert_to_security_list)
        ((contract_store setting).put_badge key badge)
      >> put_badges badge list

  unfoldable pub put_optional_badges :
      SecurityBadge → Option (List Key) → Entry (Contract L) (Unit {0})
  put_optional_badges badge none = pure tt
  put_optional_badges badge (some list) = put_badges badge list

  -- `init` after its guard
  unfoldable pub initialize : Entry (Contract L) (Unit {0})
  initialize = do
    package_hash ← runtime.key_arg "package_hash"
    unwrap_or_revert (λ e. e) (on_world (put_key host "package_hash" package_hash))
    contract_hash ← runtime.key_arg "contract_hash"
    runtime.put_key "contract_hash" contract_hash
    create_dictionary allowances_dict
    create_balances
    initial_supply ← runtime.u256_arg "total_supply"
    caller ← (contract_store setting).get_immediate_caller
    (contract_store setting).write_balance_to caller initial_supply
    map_err (λ _. failed_to_read_from_storage)
        ((contract_store setting).write_total_supply initial_supply)
    create_dictionary security_badges_dict
    put_badges admin (caller ∷ [])
    admin_list ← (contract_store setting).optional_key_list "admin_list" invalid_admin_list
    minter_list ← (contract_store setting).optional_key_list "minter_list" invalid_minter_list
    (contract_store setting).init_events
    put_optional_badges minter minter_list
    put_optional_badges admin admin_list
    (contract_store setting).record_event_dictionary (Event.mint caller initial_supply)

  -- `if get_key(DICT_ALLOWANCES).is_ok() { return Err(..) }`
  unfoldable pub init : Entry (Contract L) (Unit {0})
  init c =
      let (r, w) = get_key host "allowances" c.world in
      let c' = record c { world = w } in
      elim r [ ok _ ↦ throw already_initialized c' | err _ ↦ initialize c' | stop x ↦ (stop x, c') ]

  -- The guard of `init` takes an answer for a key: over the in-memory host, if a key that is there fits
  -- the buffer of `get_key`, `init` ends with the error of a contract that is initialized, also where
  -- nothing is stored under the name, and leaves the host as it was, but for the traced call.
  pub init_refused :
      (c : Contract L)
      → ((key : Key) → c.world.env.named_keys "allowances" ≡ some key → host.key_size key ≤ 64)
      → init c ≡ (
        err already_initialized,
        record c {
          world = record c.world {
            env = record_call (HostFunction.casper_get_key "allowances") c.world.env;
          };
        },
      )
  unfolding init
  init_refused c fits = ground (arith, get_key_eq host "allowances" c.world fits)
