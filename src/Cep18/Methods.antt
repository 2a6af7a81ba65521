-- ===== src/Cep18/Methods.antt =====
-- The entry points of crates/contract-extras/src/cep18.rs that change the token, with
-- `transfer_balance` of balances.rs and `sec_check` and `change_sec_badge` of security.rs.
use casper_contract_kit.Base.{
  ℕ, not, Option, none, some, List, [], ◌∷◌, ◌==◌, ◌||◌, if◌then◌else◌, pure, throw, ok_or,
  some_or_panic, err_if, map_err, unwrap_or,
}
use casper_contract_kit.Base.{◌>>=◌, ◌>>◌}
use casper_contract_kit.Casper.{Key, key_eq}
use casper_contract_kit.Cep18.Error.{
  cannot_target_self_user, insufficient_balance, insufficient_allowance, overflow,
  failed_to_read_from_storage, failed_to_change_total_supply, mint_burn_disabled,
  insufficient_rights, failed_to_insert_to_security_list, invalid_admin_list, invalid_minter_list,
  invalid_none_list, invalid_events_mode, failed_to_return_entry_point_result,
}
use casper_contract_kit.Cep18.Modalities.{EventsMode, TryFrom, events_mode_try_from, mode_eq}
use casper_contract_kit.Cep18.Badge.{SecurityBadge, admin, minter, none_badge, contains}
use casper_contract_kit.Cep18.Event.{Event}
use casper_contract_kit.Cep18.Store.{
  Entry, TokenStore, checked_add, checked_sub, saturating_add, saturating_sub,
}

-- `EventsMode::try_from(..)?`
abbrev pub try_mode : {S : Type 0} → ℕ → Entry S EventsMode
try_mode value = elim (events_mode_try_from value) [
  | TryFrom.ok m ↦ pure m
  | TryFrom.err e ↦ throw e
]

-- `BTreeMap::insert` and `remove` on a map from keys to badges. The order of entries is that of
-- insertion, also in the event; keys are distinct, so the writes do not depend on it.
unfoldable pub map_insert :
    Key → SecurityBadge → List (Key × SecurityBadge) → List (Key × SecurityBadge)
map_insert k b [] = (k, b) ∷ []
map_insert k b ((j, c) ∷ m) = if key_eq j k then (k, b) ∷ m else (j, c) ∷ map_insert k b m

unfoldable pub map_remove : Key → List (Key × SecurityBadge) → List (Key × SecurityBadge)
map_remove k [] = []
map_remove k ((j, c) ∷ m) = if key_eq j k then m else (j, c) ∷ map_remove k m

-- The loops of `change_security` over one optional list.
unfoldable pub insert_all :
    SecurityBadge → List Key → List (Key × SecurityBadge) → List (Key × SecurityBadge)
insert_all b [] m = m
insert_all b (k ∷ keys) m = insert_all b keys (map_insert k b m)

abbrev pub insert_list :
    SecurityBadge → Option (List Key) → List (Key × SecurityBadge) → List (Key × SecurityBadge)
insert_list b none m = m
insert_list b (some keys) m = insert_all b keys m

module _ {S : Type 0} (store : TokenStore S) where
  open store use {
    get_immediate_caller, read_balance_from, write_balance_to, read_allowance_from,
    write_allowance_to, read_total_supply, write_total_supply, read_enable_mint_burn,
    read_events_mode, write_events_mode, get_badge, put_badge, record_event_dictionary, init_events,
    optional_key_list,
  }

  -- `TOTAL_SUPPLY_KEY.read().map_err(..)?.expect(..)`
  unfoldable pub current_total_supply : Entry S ℕ
  current_total_supply = do
    supply ← map_err (λ _. failed_to_read_from_storage) read_total_supply
    some_or_panic supply

  unfoldable pub transfer_balance : Key → Key → ℕ → Entry S (Unit {0})
  transfer_balance sender recipient amount =
      if key_eq sender recipient || amount == 0 then pure tt else do
        sender_balance ← read_balance_from sender
        new_sender_balance ← ok_or (checked_sub sender_balance amount) insufficient_balance
        recipient_balance ← read_balance_from recipient
        new_recipient_balance ← ok_or (checked_add recipient_balance amount) overflow
        write_balance_to sender new_sender_balance
        write_balance_to recipient new_recipient_balance
        pure tt

  unfoldable pub balance_of : Key → Entry S ℕ
  balance_of address = read_balance_from address

  unfoldable pub allowance : Key → Key → Entry S ℕ
  allowance owner spender = read_allowance_from owner spender

  unfoldable pub total_supply : Entry S ℕ
  total_supply = do
    supply ← map_err (λ _. failed_to_return_entry_point_result) read_total_supply
    some_or_panic supply

  unfoldable pub approve : Key → ℕ → Entry S (Unit {0})
  approve spender amount = do
    caller ← get_immediate_caller
    err_if (key_eq spender caller) cannot_target_self_user
    write_allowance_to caller spender amount
    record_event_dictionary (Event.set_allowance caller spender amount)

  unfoldable pub decrease_allowance : Key → ℕ → Entry S (Unit {0})
  decrease_allowance spender amount = do
    caller ← get_immediate_caller
    err_if (key_eq spender caller) cannot_target_self_user
    current_allowance ← read_allowance_from caller spender
    let new_allowance = saturating_sub current_allowance amount
    write_allowance_to caller spender new_allowance
    record_event_dictionary (Event.decrease_allowance caller spender new_allowance amount)

  unfoldable pub increase_allowance : Key → ℕ → Entry S (Unit {0})
  increase_allowance spender amount = do
    caller ← get_immediate_caller
    err_if (key_eq spender caller) cannot_target_self_user
    current_allowance ← read_allowance_from caller spender
    let new_allowance = saturating_add current_allowance amount
    write_allowance_to caller spender new_allowance
    record_event_dictionary (Event.increase_allowance caller spender new_allowance amount)

  unfoldable pub transfer : Key → ℕ → Entry S (Unit {0})
  transfer recipient amount = do
    caller ← get_immediate_caller
    err_if (key_eq caller recipient) cannot_target_self_user
    transfer_balance caller recipient amount
    record_event_dictionary (Event.transfer caller recipient amount)

  unfoldable pub transfer_from : Key → Key → ℕ → Entry S (Unit {0})
  transfer_from owner recipient amount = do
    caller ← get_immediate_caller
    err_if (key_eq owner recipient) cannot_target_self_user
    if amount == 0 then pure tt else do
      spender_allowance ← read_allowance_from owner caller
      new_spender_allowance ← ok_or (checked_sub spender_allowance amount) insufficient_allowance
      transfer_balance owner recipient amount
      write_allowance_to owner caller new_spender_allowance
      record_event_dictionary (Event.transfer_from caller owner recipient amount)

  unfoldable pub ensure_mint_burn_enabled : Entry S (Unit {0})
  ensure_mint_burn_enabled = do
    flag ← map_err (λ _. failed_to_read_from_storage) read_enable_mint_burn
    err_if (unwrap_or 0 flag == 0) mint_burn_disabled

  unfoldable pub sec_check : List SecurityBadge → Entry S (Unit {0})
  sec_check allowed_badge_list = do
    caller ← get_immediate_caller
    found ← map_err (λ _. failed_to_read_from_storage) (get_badge caller)
    badge ← ok_or found insufficient_rights
    err_if (not (contains allowed_badge_list badge)) insufficient_rights

  unfoldable pub mint : Key → ℕ → Entry S (Unit {0})
  mint owner amount = do
    ensure_mint_burn_enabled
    sec_check (admin ∷ minter ∷ [])
    balance ← read_balance_from owner
    new_balance ← ok_or (checked_add balance amount) overflow
    supply ← current_total_supply
    new_total_supply ← ok_or (checked_add supply amount) overflow
    write_balance_to owner new_balance
    map_err (λ _. failed_to_read_from_storage) (write_total_supply new_total_supply)
    record_event_dictionary (Event.mint owner amount)

  unfoldable pub burn : Key → ℕ → Entry S (Unit {0})
  burn owner amount = do
    ensure_mint_burn_enabled
    sec_check (admin ∷ minter ∷ [])
    balance ← read_balance_from owner
    new_balance ← ok_or (checked_sub balance amount) insufficient_balance
    supply ← current_total_supply
    new_total_supply ← ok_or (checked_sub supply amount) failed_to_change_total_supply
    write_balance_to owner new_balance
    map_err (λ _. failed_to_read_from_storage) (write_total_supply new_total_supply)
    record_event_dictionary (Event.burn owner amount)

  unfoldable pub change_sec_badge : List (Key × SecurityBadge) → Entry S (Unit {0})
  change_sec_badge [] = pure tt
  change_sec_badge ((user, badge) ∷ badge_map) = do
    map_err (λ _. failed_to_insert_to_security_list) (put_badge user badge)
    change_sec_badge badge_map

  unfoldable pub change_security : Entry S (Unit {0})
  change_security = do
    ensure_mint_burn_enabled
    sec_check (admin ∷ [])
    admin_list ← optional_key_list "admin_list" invalid_admin_list
    minter_list ← optional_key_list "minter_list" invalid_minter_list
    none_list ← optional_key_list "none_list" invalid_none_list
    let requested =
        insert_list none_badge none_list
          (insert_list admin admin_list (insert_list minter minter_list []))
    caller ← get_immediate_caller
    let badge_map = map_remove caller requested
    change_sec_badge badge_map
    record_event_dictionary (Event.change_security caller badge_map)

  unfoldable pub change_events_mode : ℕ → Entry S (Unit {0})
  change_events_mode events_mode = do
    sec_check (admin ∷ [])
    desired ← try_mode events_mode
    raw ← map_err (λ _. invalid_events_mode) read_events_mode
    current ← try_mode (unwrap_or 0 raw)
    if mode_eq desired current then pure tt else do
      map_err (λ _. failed_to_read_from_storage) (write_events_mode events_mode)
      init_events
      record_event_dictionary (Event.change_events_mode events_mode)
