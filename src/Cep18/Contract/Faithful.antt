-- ===== src/Cep18/Contract/Faithful.antt =====
-- A contract over the in-memory host is a token: the accessors of cep18.rs, balances.rs, allowances.rs,
-- security.rs, events.rs and utils.rs on its storage, and the entry points that are made of them.
use casper_contract_kit.Base.{ℕ, List}
use casper_contract_kit.Casper.{Key}
use casper_contract_kit.Cep18.Badge.{SecurityBadge}
use casper_contract_kit.Cep18.Event.{Event}
use casper_contract_kit.Cep18.Store.{Entry}
use casper_contract_kit.Cep18.Modalities.{EventsMode}
use casper_contract_kit.Cep18.Token.{Token, token_store}
use casper_contract_kit.Cep18.Simulation.{Agrees}
use casper_contract_kit.Cep18.Implements.{Implements}
use casper_contract_kit.Cep18.Refinement.{entry_points_refine}
use casper_contract_kit.Cep18.Methods.{
  transfer_balance, approve, decrease_allowance, increase_allowance, transfer, transfer_from, mint,
  burn, change_sec_badge, change_security, change_events_mode,
}
use casper_contract_kit.Cep18.Contract.{Setting, Contract, contract_store}
use casper_contract_kit.Cep18.Contract.View.{Layout, view, IsToken}
use casper_contract_kit.Cep18.Contract.Reading.{IsFaithful}
use casper_contract_kit.Cep18.Contract.Accessors.{
  caller-sim, balance-sim, allowance-sim, supply-sim, mint_burn-sim, read_mode-sim, badge-sim,
}
use casper_contract_kit.Cep18.Contract.Changes.{
  write_balance-sim, write_allowance-sim, put_badge-sim, write_supply-sim, write_mode-sim,
}
use casper_contract_kit.Cep18.Contract.Events.{record_event-sim, init_events-sim}
use casper_contract_kit.Cep18.Contract.OptionalArguments.{key_list-sim}

module _ {L : Type 0} (setting : Setting L) (events : L → List (EventsMode × Event)) (l : Layout)
    (faithful : IsFaithful setting events l) where
  contract_store-Implements :
      Implements (view setting events l) (IsToken setting events l) (contract_store setting)
  contract_store-Implements = record {
    get_immediate_caller = caller-sim setting events l faithful;
    read_balance_from = balance-sim setting events l faithful;
    write_balance_to = write_balance-sim setting events l faithful;
    read_allowance_from = allowance-sim setting events l faithful;
    write_allowance_to = write_allowance-sim setting events l faithful;
    read_total_supply = supply-sim setting events l faithful;
    write_total_supply = write_supply-sim setting events l faithful;
    read_enable_mint_burn = mint_burn-sim setting events l faithful;
    read_events_mode = read_mode-sim setting events l faithful;
    write_events_mode = write_mode-sim setting events l faithful;
    get_badge = badge-sim setting events l faithful;
    put_badge = put_badge-sim setting events l faithful;
    record_event_dictionary = record_event-sim setting events l faithful;
    init_events = init_events-sim setting events l faithful;
    optional_key_list = key_list-sim setting events l;
  }

  module _ (c : Contract L) (t : IsToken setting events l c) where
    -- An entry point on the storage of the contract does what the one of the token does on its token.
    abbrev EndsAlike : {A : Type 0} → Entry (Contract L) A → Entry Token A → Type 0
    EndsAlike m n =
        Agrees (view setting events l) (IsToken setting events l) (m c)
          (n (view setting events l c))

    -- Over the storage of a contract (named keys, dictionaries and serialized values of the in-memory
    -- host, if the settings are as documented and the named keys lead apart), every entry point that
    -- changes the token ends as on the token that the storage stands for, with the same value, error or
    -- revert, and leaves a storage that stands for the token that the entry point leaves.
    pub contract_refines :
        (a b : Key) (n : ℕ) (m : List (Key × SecurityBadge))
        → EndsAlike
            (transfer_balance (contract_store setting) a b n)
            (transfer_balance token_store a b n)
          × EndsAlike (approve (contract_store setting) a n) (approve token_store a n)
          × EndsAlike
              (increase_allowance (contract_store setting) a n)
              (increase_allowance token_store a n)
          × EndsAlike
              (decrease_allowance (contract_store setting) a n)
              (decrease_allowance token_store a n)
          × EndsAlike (transfer (contract_store setting) b n) (transfer token_store b n)
          × EndsAlike
              (transfer_from (contract_store setting) a b n)
              (transfer_from token_store a b n)
          × EndsAlike (mint (contract_store setting) a n) (mint token_store a n)
          × EndsAlike (burn (contract_store setting) a n) (burn token_store a n)
          × EndsAlike (change_sec_badge (contract_store setting) m) (change_sec_badge token_store m)
          × EndsAlike (change_security (contract_store setting)) (change_security token_store)
          × EndsAlike
              (change_events_mode (contract_store setting) n)
              (change_events_mode token_store n)
    contract_refines a b n m =
        let (p0, p1, p2, p3, p4, p5, p6, p7, p8, p9, p10) =
          entry_points_refine (view setting events l) (IsToken setting events l)
            (contract_store setting) contract_store-Implements a b n m in
        (
          p0.run c t,
          p1.run c t,
          p2.run c t,
          p3.run c t,
          p4.run c t,
          p5.run c t,
          p6.run c t,
          p7.run c t,
          p8.run c t,
          p9.run c t,
          p10.run c t,
        )
