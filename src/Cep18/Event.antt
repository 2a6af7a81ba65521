-- ===== src/Cep18/Event.antt =====
-- crates/contract-extras/src/cep18/events.rs: the events of the token.
use casper_contract_kit.Base.{ℕ, List}
use casper_contract_kit.Casper.{Key}
use casper_contract_kit.Cep18.Badge.{SecurityBadge}

pub data Event : Type 0 where
  mint : (recipient : Key) (amount : ℕ) → Event
  burn : (owner : Key) (amount : ℕ) → Event
  set_allowance : (owner spender : Key) (allowance : ℕ) → Event
  increase_allowance : (owner spender : Key) (allowance inc_by : ℕ) → Event
  decrease_allowance : (owner spender : Key) (allowance decr_by : ℕ) → Event
  transfer : (sender recipient : Key) (amount : ℕ) → Event
  transfer_from : (spender owner recipient : Key) (amount : ℕ) → Event
  change_security : (admin : Key) (sec_change_map : List (Key × SecurityBadge)) → Event
  change_events_mode : (events_mode : ℕ) → Event
