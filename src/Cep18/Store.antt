-- ===== src/Cep18/Store.antt =====
-- What the entry points of cep18.rs call: the accessors of balances.rs, allowances.rs, security.rs,
-- events.rs and the typed URefs. The entry points take them as an interface, which the storage of
-- a contract and the abstract token implement.
use casper_contract_kit.Base.{
  ℕ, ◌+◌, ◌-◌, ◌^◌, String, Option, none, some, List, ltb, if◌then◌else◌, Exec,
}
use casper_contract_kit.Casper.{Key, ApiError}
use casper_contract_kit.Cep18.Error.{Cep18Error}
use casper_contract_kit.Cep18.Badge.{SecurityBadge}
use casper_contract_kit.Cep18.Event.{Event}

-- An entry point, or a helper of one, over the state `S`.
abbrev pub Entry : Type 0 → Type 0 → Type 0
Entry S A = Exec S ApiError Cep18Error A

pub record TokenStore (S : Type 0) : Type 0 where
  pub get_immediate_caller : Entry S Key
  pub read_balance_from : Key → Entry S ℕ
  pub write_balance_to : Key → ℕ → Entry S (Unit {0})
  pub read_allowance_from : Key → Key → Entry S ℕ
  pub write_allowance_to : Key → Key → ℕ → Entry S (Unit {0})
  -- `TOTAL_SUPPLY_KEY`, `ENABLE_MINT_BURN_KEY` and `EVENTS_MODE_KEY`
  pub read_total_supply : Exec S ApiError ApiError (Option ℕ)
  pub write_total_supply : ℕ → Exec S ApiError ApiError (Unit {0})
  pub read_enable_mint_burn : Exec S ApiError ApiError (Option ℕ)
  pub read_events_mode : Exec S ApiError ApiError (Option ℕ)
  pub write_events_mode : ℕ → Exec S ApiError ApiError (Unit {0})
  -- `SECURITY_BADGES_DICT`
  pub get_badge : Key → Exec S ApiError ApiError (Option SecurityBadge)
  pub put_badge : Key → SecurityBadge → Exec S ApiError ApiError (Unit {0})
  pub record_event_dictionary : Event → Entry S (Unit {0})
  pub init_events : Entry S (Unit {0})
  -- `get_optional_named_arg_with_user_errors` for a list of keys
  pub optional_key_list : String → Cep18Error → Entry S (Option (List Key))

-- `U256`: a number below 2 ^ 256, with the checked and saturating operations of the source.
abbrev pub u256_mod : ℕ
u256_mod = 2 ^ 256

unfoldable pub checked_add : ℕ → ℕ → Option ℕ
checked_add a b = if ltb (a + b) u256_mod then some (a + b) else none

unfoldable pub checked_sub : ℕ → ℕ → Option ℕ
checked_sub a b = if ltb a b then none else some (a - b)

unfoldable pub saturating_add : ℕ → ℕ → ℕ
saturating_add a b = if ltb (a + b) u256_mod then a + b else u256_mod - 1

unfoldable pub saturating_sub : ℕ → ℕ → ℕ
saturating_sub a b = if ltb a b then 0 else a - b
