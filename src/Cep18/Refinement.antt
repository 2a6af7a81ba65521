-- ===== src/Cep18/Refinement.antt =====
-- The entry points of cep18.rs over any storage that implements the token.
use casper_contract_kit.Base.{ℕ, ◌==◌, ◌||◌, not, List, [], ◌∷◌, unwrap_or, pure, throw}
use casper_contract_kit.Casper.{Key, key_eq}
use casper_contract_kit.Cep18.Error.{
  Cep18Error, cannot_target_self_user, insufficient_allowance, insufficient_balance, overflow,
  failed_to_read_from_storage, failed_to_change_total_supply, mint_burn_disabled,
  insufficient_rights, failed_to_insert_to_security_list, invalid_admin_list, invalid_minter_list,
  invalid_none_list, invalid_events_mode,
}
use casper_contract_kit.Cep18.Badge.{SecurityBadge, contains}
use casper_contract_kit.Cep18.Modalities.{EventsMode, TryFrom, events_mode_try_from, mode_eq}
use casper_contract_kit.Cep18.Store.{
  TokenStore, checked_add, checked_sub, saturating_add, saturating_sub,
}
use casper_contract_kit.Cep18.Methods.{
  try_mode, current_total_supply, transfer_balance, approve, decrease_allowance, increase_allowance,
  transfer, transfer_from, ensure_mint_burn_enabled, sec_check, mint, burn, change_sec_badge,
  change_security, change_events_mode,
}
use casper_contract_kit.Cep18.Implements.{Implements}
use casper_contract_kit.Cep18.Token.{Token, token_store}
use casper_contract_kit.Cep18.Simulation.{
  Simulates, sim-pure, sim-throw, sim-bind, sim-ok_or, sim-some, sim-err_if, sim-if, sim-map_err,
}

module _ {S : Type 0} (view : S → Token) (IsValid : S → Type 0) (store : TokenStore S)
    (impl : Implements view IsValid store) where
  transfer_balance-sim :
      (a b : Key) (n : ℕ)
      → Simulates view IsValid (transfer_balance store a b n) (transfer_balance token_store a b n)
  unfolding transfer_balance
  transfer_balance-sim a b n = sim-if (key_eq a b || n == 0) (sim-pure tt) (
      sim-bind (impl.read_balance_from a) λ x. sim-bind (sim-ok_or (checked_sub x n) _) λ y.
        sim-bind (impl.read_balance_from b) λ z. sim-bind (sim-ok_or (checked_add z n) _) λ u.
          sim-bind (impl.write_balance_to a y)
            λ _. sim-bind (impl.write_balance_to b u) λ _. sim-pure tt)

  mint_burn_enabled-sim :
      Simulates view IsValid (ensure_mint_burn_enabled store) (ensure_mint_burn_enabled token_store)
  unfolding ensure_mint_burn_enabled
  mint_burn_enabled-sim =
      sim-bind (sim-map_err (λ _. failed_to_read_from_storage) impl.read_enable_mint_burn)
        λ flag. sim-err_if (unwrap_or 0 flag == 0) mint_burn_disabled

  sec_check-sim :
      (list : List SecurityBadge)
      → Simulates view IsValid (sec_check store list) (sec_check token_store list)
  unfolding sec_check
  sec_check-sim list = sim-bind impl.get_immediate_caller λ caller.
      sim-bind (sim-map_err (λ _. failed_to_read_from_storage) (impl.get_badge caller)) λ found.
        sim-bind (sim-ok_or found insufficient_rights)
          λ badge. sim-err_if (not (contains list badge)) insufficient_rights

  supply-sim :
      Simulates view IsValid (current_total_supply store) (current_total_supply token_store)
  unfolding current_total_supply
  supply-sim =
      sim-bind (sim-map_err (λ _. failed_to_read_from_storage) impl.read_total_supply)
        λ supply. sim-some supply

  try_mode-sim : (value : ℕ) → Simulates view IsValid (try_mode value) (try_mode value)
  try_mode-sim value = answer (events_mode_try_from value)
    where
      answer :
          (r : TryFrom EventsMode)
          → Simulates view IsValid {E = Cep18Error} {A = EventsMode}
              (elim r [ TryFrom.ok m ↦ pure m | TryFrom.err e ↦ throw e ])
              (elim r [ TryFrom.ok m ↦ pure m | TryFrom.err e ↦ throw e ])
      answer (TryFrom.ok m) = sim-pure m
      answer (TryFrom.err e) = sim-throw e

  badges-sim :
      (m : List (Key × SecurityBadge))
      → Simulates view IsValid (change_sec_badge store m) (change_sec_badge token_store m)
  unfolding change_sec_badge
  badges-sim [] = sim-pure tt
  badges-sim ((k, b) ∷ m) =
      sim-bind (sim-map_err (λ _. failed_to_insert_to_security_list) (impl.put_badge k b))
        λ _. badges-sim m

  approve-sim :
      (spender : Key) (n : ℕ)
      → Simulates view IsValid (approve store spender n) (approve token_store spender n)
  unfolding approve
  approve-sim spender n = sim-bind impl.get_immediate_caller λ caller.
      sim-bind (sim-err_if (key_eq spender caller) cannot_target_self_user)
        λ _. sim-bind (impl.write_allowance_to caller spender n) λ _. impl.record_event_dictionary _

  decrease-sim :
      (spender : Key) (n : ℕ)
      → Simulates view IsValid
          (decrease_allowance store spender n)
          (decrease_allowance token_store spender n)
  unfolding decrease_allowance
  decrease-sim spender n = sim-bind impl.get_immediate_caller λ caller.
      sim-bind (sim-err_if (key_eq spender caller) cannot_target_self_user) λ _.
        sim-bind (impl.read_allowance_from caller spender) λ current.
          sim-bind (impl.write_allowance_to caller spender (saturating_sub current n))
            λ _. impl.record_event_dictionary _

  increase-sim :
      (spender : Key) (n : ℕ)
      → Simulates view IsValid
          (increase_allowance store spender n)
          (increase_allowance token_store spender n)
  unfolding increase_allowance
  increase-sim spender n = sim-bind impl.get_immediate_caller λ caller.
      sim-bind (sim-err_if (key_eq spender caller) cannot_target_self_user) λ _.
        sim-bind (impl.read_allowance_from caller spender) λ current.
          sim-bind (impl.write_allowance_to caller spender (saturating_add current n))
            λ _. impl.record_event_dictionary _

  transfer-sim :
      (b : Key) (n : ℕ) → Simulates view IsValid (transfer store b n) (transfer token_store b n)
  unfolding transfer
  transfer-sim b n = sim-bind impl.get_immediate_caller λ caller.
      sim-bind (sim-err_if (key_eq caller b) cannot_target_self_user)
        λ _. sim-bind (transfer_balance-sim caller b n) λ _. impl.record_event_dictionary _

  transfer_from-sim :
      (a b : Key) (n : ℕ)
      → Simulates view IsValid (transfer_from store a b n) (transfer_from token_store a b n)
  unfolding transfer_from
  transfer_from-sim a b n = sim-bind impl.get_immediate_caller λ caller.
      sim-bind (sim-err_if (key_eq a b) cannot_target_self_user) λ _.
        sim-if (n == 0) (sim-pure tt) (
          sim-bind (impl.read_allowance_from a caller) λ x.
            sim-bind (sim-ok_or (checked_sub x n) insufficient_allowance) λ y.
              sim-bind (transfer_balance-sim a b n) λ _.
                sim-bind (impl.write_allowance_to a caller y) λ _. impl.record_event_dictionary _)

  mint-sim : (k : Key) (n : ℕ) → Simulates view IsValid (mint store k n) (mint token_store k n)
  unfolding mint
  mint-sim k n = sim-bind mint_burn_enabled-sim λ _. sim-bind (sec_check-sim _) λ _.
      sim-bind (impl.read_balance_from k) λ x. sim-bind (sim-ok_or (checked_add x n) overflow) λ y.
        sim-bind supply-sim λ u. sim-bind (sim-ok_or (checked_add u n) overflow) λ v.
          sim-bind (impl.write_balance_to k y) λ _.
            sim-bind (sim-map_err (λ _. failed_to_read_from_storage) (impl.write_total_supply v))
              λ _. impl.record_event_dictionary _

  burn-sim : (k : Key) (n : ℕ) → Simulates view IsValid (burn store k n) (burn token_store k n)
  unfolding burn
  burn-sim k n = sim-bind mint_burn_enabled-sim λ _. sim-bind (sec_check-sim _) λ _.
      sim-bind (impl.read_balance_from k) λ x.
        sim-bind (sim-ok_or (checked_sub x n) insufficient_balance) λ y. sim-bind supply-sim λ u.
          sim-bind (sim-ok_or (checked_sub u n) failed_to_change_total_supply) λ v.
            sim-bind (impl.write_balance_to k y) λ _.
              sim-bind (sim-map_err (λ _. failed_to_read_from_storage) (impl.write_total_supply v))
                λ _. impl.record_event_dictionary _

  change_security-sim : Simulates view IsValid (change_security store) (change_security token_store)
  unfolding change_security
  change_security-sim = sim-bind mint_burn_enabled-sim λ _. sim-bind (sec_check-sim _) λ _.
      sim-bind (impl.optional_key_list "admin_list" invalid_admin_list (λ e. cc)) λ _.
        sim-bind (impl.optional_key_list "minter_list" invalid_minter_list (λ e. cc)) λ _.
          sim-bind (impl.optional_key_list "none_list" invalid_none_list (λ e. cc)) λ _.
            sim-bind impl.get_immediate_caller
              λ _. sim-bind (badges-sim _) λ _. impl.record_event_dictionary _

  change_events_mode-sim :
      (mode : ℕ)
      → Simulates view IsValid (change_events_mode store mode) (change_events_mode token_store mode)
  unfolding change_events_mode
  change_events_mode-sim mode = sim-bind (sec_check-sim _) λ _.
      sim-bind (try_mode-sim mode) λ desired.
        sim-bind (sim-map_err (λ _. invalid_events_mode) impl.read_events_mode) λ raw.
          sim-bind (try_mode-sim (unwrap_or 0 raw)) λ current.
            sim-if (mode_eq desired current) (sim-pure tt) (
              sim-bind
                (sim-map_err (λ _. failed_to_read_from_storage) (impl.write_events_mode mode))
                λ _. sim-bind impl.init_events λ _. impl.record_event_dictionary _)

  -- Over a storage that implements the accessors of the token, every entry point that changes the
  -- token, with `transfer_balance` and the loop over badges, ends as on the token of the view, with
  -- the same value, error or revert, in a state whose view is the token's, the storage still valid.
  pub entry_points_refine :
      (a b : Key) (n : ℕ) (m : List (Key × SecurityBadge))
      → Simulates view IsValid (transfer_balance store a b n) (transfer_balance token_store a b n)
        × Simulates view IsValid (approve store a n) (approve token_store a n)
        × Simulates view IsValid (increase_allowance store a n) (increase_allowance token_store a n)
        × Simulates view IsValid (decrease_allowance store a n) (decrease_allowance token_store a n)
        × Simulates view IsValid (transfer store b n) (transfer token_store b n)
        × Simulates view IsValid (transfer_from store a b n) (transfer_from token_store a b n)
        × Simulates view IsValid (mint store a n) (mint token_store a n)
        × Simulates view IsValid (burn store a n) (burn token_store a n)
        × Simulates view IsValid (change_sec_badge store m) (change_sec_badge token_store m)
        × Simulates view IsValid (change_security store) (change_security token_store)
        × Simulates view IsValid (change_events_mode store n) (change_events_mode token_store n)
  entry_points_refine a b n m = (
    transfer_balance-sim a b n,
    approve-sim a n,
    increase-sim a n,
    decrease-sim a n,
    transfer-sim b n,
    transfer_from-sim a b n,
    mint-sim a n,
    burn-sim a n,
    badges-sim m,
    change_security-sim,
    change_events_mode-sim n,
  )
