-- ===== src/Cep18/Token.antt =====
-- The token that the entry points of cep18.rs promise: total maps for balances and allowances, the
-- supply, the badges and the emitted events, with no storage behind them. `token_store` answers the
-- accessors of balances.rs, allowances.rs, security.rs and events.rs as their documentation says:
-- what was never written is 0, or no badge.
use casper_contract_kit.Base.{
  ℕ, String, Option, none, some, List, [], ◌∷◌, ◌++◌, Bool, true, ◌&&◌, if◌then◌else◌, pure, revert,
  gets, modify,
}
use casper_contract_kit.Casper.{Key, key_eq}
use casper_contract_kit.Cep18.Error.{Cep18Error, to_api_error, invalid_events_mode}
use casper_contract_kit.Cep18.Modalities.{
  EventsMode, TryFrom, events_mode_try_from, no_events, ces, native, native_bytes,
}
use casper_contract_kit.Cep18.Badge.{SecurityBadge}
use casper_contract_kit.Cep18.Event.{Event}
use casper_contract_kit.Cep18.Store.{Entry, TokenStore}

-- An optional named argument that holds a list of keys.
pub data KeyList : Type 0 where
  absent malformed : KeyList
  keys : List Key → KeyList

pub record Token : Type 0 where
  pub caller : Key
  pub balance : Key → ℕ
  pub allowance : Key → Key → ℕ
  pub total_supply : Option ℕ
  pub enable_mint_burn : Option ℕ
  pub events_mode : ℕ
  pub badge : Key → Option SecurityBadge
  pub key_lists : String → KeyList
  pub has_schemas : Bool
  pub events : List (EventsMode × Event)

abbrev pub set_balance : Key → ℕ → (Key → ℕ) → Key → ℕ
set_balance k v f j = if key_eq j k then v else f j

abbrev pub set_allowance : Key → Key → ℕ → (Key → Key → ℕ) → Key → Key → ℕ
set_allowance o s v f o' s' = if key_eq o' o && key_eq s' s then v else f o' s'

abbrev pub set_badge :
    Key → SecurityBadge → (Key → Option SecurityBadge) → Key → Option SecurityBadge
set_badge k b f j = if key_eq j k then some b else f j

-- `record_event_dictionary`: an event per call, unless the mode says none.
abbrev pub emit : EventsMode → Event → Entry Token (Unit {0})
emit no_events event = pure tt
emit ces event = modify (λ t. record t { events = t.events ++ ((ces, event) ∷ []) })
emit native event = modify (λ t. record t { events = t.events ++ ((native, event) ∷ []) })
emit native_bytes event =
    modify (λ t. record t { events = t.events ++ ((native_bytes, event) ∷ []) })

abbrev pub with_mode : (EventsMode → Entry Token (Unit {0})) → Entry Token (Unit {0})
with_mode act t = elim (events_mode_try_from t.events_mode) [
  | TryFrom.ok mode ↦ act mode t
  | TryFrom.err e ↦ revert (to_api_error invalid_events_mode) t
]

-- `init_events`: the schemas are written in the mode that needs them.
abbrev pub init_schemas : EventsMode → Entry Token (Unit {0})
init_schemas ces = modify (λ t. record t { has_schemas = true })
init_schemas no_events = pure tt
init_schemas native = pure tt
init_schemas native_bytes = pure tt

abbrev pub key_list_of : Cep18Error → KeyList → Entry Token (Option (List Key))
key_list_of invalid absent = pure none
key_list_of invalid malformed = revert (to_api_error invalid)
key_list_of invalid (keys list) = pure (some list)

abbrev pub token_store : TokenStore Token
token_store = record {
  get_immediate_caller = gets (λ t. t.caller);
  read_balance_from = λ k. gets (λ t. t.balance k);
  write_balance_to = λ k v. modify (λ t. record t { balance = set_balance k v t.balance });
  read_allowance_from = λ o s. gets (λ t. t.allowance o s);
  write_allowance_to =
      λ o s v. modify (λ t. record t { allowance = set_allowance o s v t.allowance });
  read_total_supply = gets (λ t. t.total_supply);
  write_total_supply = λ v. modify (λ t. record t { total_supply = some v });
  read_enable_mint_burn = gets (λ t. t.enable_mint_burn);
  read_events_mode = gets (λ t. some t.events_mode);
  write_events_mode = λ v. modify (λ t. record t { events_mode = v });
  get_badge = λ k. gets (λ t. t.badge k);
  put_badge = λ k b. modify (λ t. record t { badge = set_badge k b t.badge });
  record_event_dictionary = λ event. with_mode (λ mode. emit mode event);
  init_events = with_mode init_schemas;
  optional_key_list = λ name invalid t. key_list_of invalid (t.key_lists name) t;
}
