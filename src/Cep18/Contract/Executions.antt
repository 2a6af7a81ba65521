-- ===== src/Cep18/Contract/Executions.antt =====
-- Executions of the contract: calls of the entry points of cep18.rs over its storage, by any accounts.
use casper_contract_kit.Base.{
  ℕ, ◌≡◌, ◌≤◌, refl, sym, subst, inl, String, Bytes, Option, none, List, [],
}
use casper_contract_kit.Casper.{Key}
use casper_contract_kit.Host.{Host}
use casper_contract_kit.Cep18.Event.{Event}
use casper_contract_kit.Cep18.Modalities.{EventsMode}
use casper_contract_kit.Cep18.Store.{Entry, TokenStore}
use casper_contract_kit.Cep18.Methods
use casper_contract_kit.Cep18.Token.{Token, token_store}
use casper_contract_kit.Cep18.Sums.{count}
use casper_contract_kit.Cep18.Backed.{IsBacked, Backs-eq}
use casper_contract_kit.Cep18.Reachable.{
  Step, approve_call, increase_call, decrease_call, transfer_call, transfer_from_call, mint_call,
  burn_call, change_security_call, change_events_mode_call, Step-IsBacked,
}
use casper_contract_kit.Cep18.Simulation.{Agrees}
use casper_contract_kit.Cep18.Contract.{Setting, Contract, contract_store}
use casper_contract_kit.Cep18.Contract.View.{Layout, view, IsToken, same_dictionary, same_value}
use casper_contract_kit.Cep18.Contract.Reading.{IsFaithful}
use casper_contract_kit.Cep18.Contract.Faithful.{contract_refines}

-- A call of an entry point that changes the token.
pub data Call : Type 0 where
  approve increase_allowance decrease_allowance transfer mint burn : Key → ℕ → Call
  transfer_from : Key → Key → ℕ → Call
  change_security : Call
  change_events_mode : ℕ → Call

abbrev pub run_call : {S : Type 0} → TokenStore S → Call → Entry S (Unit {0})
run_call store (approve s n) = Methods.approve store s n
run_call store (increase_allowance s n) = Methods.increase_allowance store s n
run_call store (decrease_allowance s n) = Methods.decrease_allowance store s n
run_call store (transfer b n) = Methods.transfer store b n
run_call store (mint k n) = Methods.mint store k n
run_call store (burn k n) = Methods.burn store k n
run_call store (transfer_from a b n) = Methods.transfer_from store a b n
run_call store change_security = Methods.change_security store
run_call store (change_events_mode mode) = Methods.change_events_mode store mode

-- Tokens go to, and are burnt from, the accounts of a list only.
abbrev pub IsListed : List Key → Call → Type 0
IsListed holders (approve s n) = Unit
IsListed holders (increase_allowance s n) = Unit
IsListed holders (decrease_allowance s n) = Unit
IsListed holders (transfer b n) = count b holders ≡ 1
IsListed holders (mint k n) = count k holders ≡ 1
IsListed holders (burn k n) = count k holders ≡ 1
IsListed holders (transfer_from a b n) = count b holders ≡ 1
IsListed holders change_security = Unit
IsListed holders (change_events_mode mode) = Unit

-- A new execution with its arguments: no cell is filled, and the host's buffer is empty.
abbrev pub begin_execution : {L : Type 0} → (String → Option Bytes) → Contract L → Contract L
begin_execution args c = record c {
  world = record {
    env = record c.world.env { args = args; host_buffer = none; trace = [] };
    cells = λ nk. none;
  };
}

call-Step :
    (holders : List Key) (call : Call) (t : Token)
    → IsListed holders call
    → Step holders t (run_call token_store call t).1
call-Step holders (approve s n) t h = approve_call t s n
call-Step holders (increase_allowance s n) t h = increase_call t s n
call-Step holders (decrease_allowance s n) t h = decrease_call t s n
call-Step holders (transfer b n) t h = transfer_call t b n h
call-Step holders (mint k n) t h = mint_call t k n h
call-Step holders (burn k n) t h = burn_call t k n h
call-Step holders (transfer_from a b n) t h = transfer_from_call t a b n h
call-Step holders change_security t h = change_security_call t
call-Step holders (change_events_mode mode) t h = change_events_mode_call t mode

module _ {L : Type 0} (setting : Setting L) (events : L → List (EventsMode × Event)) (l : Layout)
    (faithful : IsFaithful setting events l) (c : Contract L) (t : IsToken setting events l c) where
  call-Agrees :
      (call : Call)
      → Agrees
          (view setting events l)
          (IsToken setting events l)
          (run_call (contract_store setting) call c)
          (run_call token_store call (view setting events l c))
  call-Agrees (approve s n) =
      let (_, p, _, _, _, _, _, _, _, _, _) =
        contract_refines setting events l faithful c t s s n [] in
      p
  call-Agrees (increase_allowance s n) =
      let (_, _, p, _, _, _, _, _, _, _, _) =
        contract_refines setting events l faithful c t s s n [] in
      p
  call-Agrees (decrease_allowance s n) =
      let (_, _, _, p, _, _, _, _, _, _, _) =
        contract_refines setting events l faithful c t s s n [] in
      p
  call-Agrees (transfer b n) =
      let (_, _, _, _, p, _, _, _, _, _, _) =
        contract_refines setting events l faithful c t b b n [] in
      p
  call-Agrees (transfer_from a b n) =
      let (_, _, _, _, _, p, _, _, _, _, _) =
        contract_refines setting events l faithful c t a b n [] in
      p
  call-Agrees (mint k n) =
      let (_, _, _, _, _, _, p, _, _, _, _) =
        contract_refines setting events l faithful c t k k n [] in
      p
  call-Agrees (burn k n) =
      let (_, _, _, _, _, _, _, p, _, _, _) =
        contract_refines setting events l faithful c t k k n [] in
      p
  call-Agrees change_security =
      let (_, _, _, _, _, _, _, _, _, p, _) =
        contract_refines setting events l faithful c t (Key.other 0) (Key.other 0) 0 [] in
      p
  call-Agrees (change_events_mode mode) =
      let (_, _, _, _, _, _, _, _, _, _, p) =
        contract_refines setting events l faithful c t (Key.other 0) (Key.other 0) mode [] in
      p

-- The host that the contract has when an account calls, and the layout with that account.
module _ {L : Type 0} (base : Setting L) (hosts : ℕ → Host) (events : L → List (EventsMode × Event))
    (l : Layout) (holders : List Key) where
  abbrev called_by : ℕ → Setting L
  called_by a = record base { host = hosts a }

  abbrev seen_by : ℕ → Layout
  seen_by a = record l { caller = a }

  -- One execution, and any number of them.
  pub data StoredStep : Contract L → Contract L → Type 0 where
    execution :
        (c : Contract L) (a : ℕ) (args : String → Option Bytes) (call : Call)
        → IsListed holders call
        → StoredStep c (run_call (contract_store (called_by a)) call (begin_execution args c)).1

  pub data StoredReachable : Contract L → Contract L → Type 0 where
    here : {c : Contract L} → StoredReachable c c
    later : {c d e : Contract L} → StoredReachable c d → StoredStep d e → StoredReachable c e

  -- The storage stands for a token, as an account sees it, whose supply is the sum of the balances.
  pub record IsBackedStorage (c : Contract L) : Type 0 where
    pub account : ℕ
    pub stands : IsToken (called_by account) events (seen_by account) c
    pub backed : IsBacked holders (view (called_by account) events (seen_by account) c)

  module _ (faithful : (a : ℕ) → IsFaithful (called_by a) events (seen_by a))
      (sizes : (a b : ℕ) (k : Key) → (hosts a).key_size k ≡ (hosts b).key_size k) where
    started-IsToken :
        (c : Contract L) (b a : ℕ) (args : String → Option Bytes)
        → IsToken (called_by b) events (seen_by b) c
        → IsToken (called_by a) events (seen_by a) (begin_execution args c)
    started-IsToken c b a args t = record {
      coherent = record {
        cells = λ nk. inl refl;
        keys_fit = λ name key found.
            subst (λ n. n ≤ 64) (sizes b a key) (t.coherent.keys_fit name key found);
      };
      emptied = refl;
      balances = same_dictionary _ _ _ c.world (begin_execution args c).world refl refl t.balances;
      allowances =
          same_dictionary _ _ _ c.world (begin_execution args c).world refl refl t.allowances;
      badges = same_dictionary _ _ _ c.world (begin_execution args c).world refl refl t.badges;
      supply = same_value _ _ _ c.world (begin_execution args c).world refl refl t.supply;
      mint_burn = same_value _ _ _ c.world (begin_execution args c).world refl refl t.mint_burn;
      mode = same_value _ _ _ c.world (begin_execution args c).world refl refl t.mode;
    }

    StoredStep-IsBackedStorage :
        {c d : Contract L} → StoredStep c d → IsBackedStorage c → IsBackedStorage d
    StoredStep-IsBackedStorage (execution c a args call listed) h =
        let t = started-IsToken c h.account a args h.stands in
        let p =
          call-Agrees (called_by a) events (seen_by a) (faithful a) (begin_execution args c) t
            call in
        let before : IsBacked holders
            (view (called_by a) events (seen_by a) (begin_execution args c)) =
          Backs-eq holders h.backed refl refl in
        let after = Step-IsBacked holders (call-Step holders call _ listed) before in
        record {
          account = a;
          stands = p.valid;
          backed = subst (IsBacked holders) (sym p.state) after;
        }

    -- From a storage that stands for a token whose supply is the sum of the balances of a list of
    -- holders, any number of executions, each a call of an entry point by any account with any
    -- arguments, successful or refused, that sends tokens to and burns them from listed accounts,
    -- leads to a storage that stands for such a token again.
    pub StoredReachable-IsBackedStorage :
        (c d : Contract L) → IsBackedStorage c → StoredReachable c d → IsBackedStorage d
    StoredReachable-IsBackedStorage c d h here = h
    StoredReachable-IsBackedStorage c d h (later r s) =
        StoredStep-IsBackedStorage s (StoredReachable-IsBackedStorage c _ h r)
