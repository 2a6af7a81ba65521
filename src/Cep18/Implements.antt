-- ===== src/Cep18/Implements.antt =====
-- What it is for a storage to implement the token of Cep18/Token.antt: the accessors that the entry
-- points of cep18.rs call answer as its own.
use casper_contract_kit.Base.{ℕ, ◌≢◌, String}
use casper_contract_kit.Casper.{Key}
use casper_contract_kit.Cep18.Error.{Cep18Error, phantom}
use casper_contract_kit.Cep18.Badge.{SecurityBadge}
use casper_contract_kit.Cep18.Event.{Event}
use casper_contract_kit.Cep18.Store.{TokenStore}
use casper_contract_kit.Cep18.Token.{Token, token_store}
use casper_contract_kit.Cep18.Simulation.{Simulates}

-- Every accessor does on the storage what it does on the token. The error of an optional argument is
-- not the one that stands for a missing argument.
pub record Implements {S : Type 0} (view : S → Token) (IsValid : S → Type 0) (store : TokenStore S)
    : Type 0 where
  pub get_immediate_caller :
      Simulates view IsValid store.get_immediate_caller token_store.get_immediate_caller
  pub read_balance_from :
      (k : Key)
      → Simulates view IsValid (store.read_balance_from k) (token_store.read_balance_from k)
  pub write_balance_to :
      (k : Key) (v : ℕ)
      → Simulates view IsValid (store.write_balance_to k v) (token_store.write_balance_to k v)
  pub read_allowance_from :
      (o s : Key)
      → Simulates view IsValid (store.read_allowance_from o s) (token_store.read_allowance_from o s)
  pub write_allowance_to :
      (o s : Key) (v : ℕ)
      → Simulates view IsValid
          (store.write_allowance_to o s v)
          (token_store.write_allowance_to o s v)
  pub read_total_supply :
      Simulates view IsValid store.read_total_supply token_store.read_total_supply
  pub write_total_supply :
      (v : ℕ)
      → Simulates view IsValid (store.write_total_supply v) (token_store.write_total_supply v)
  pub read_enable_mint_burn :
      Simulates view IsValid store.read_enable_mint_burn token_store.read_enable_mint_burn
  pub read_events_mode : Simulates view IsValid store.read_events_mode token_store.read_events_mode
  pub write_events_mode :
      (v : ℕ) → Simulates view IsValid (store.write_events_mode v) (token_store.write_events_mode v)
  pub get_badge : (k : Key) → Simulates view IsValid (store.get_badge k) (token_store.get_badge k)
  pub put_badge :
      (k : Key) (b : SecurityBadge)
      → Simulates view IsValid (store.put_badge k b) (token_store.put_badge k b)
  pub record_event_dictionary :
      (e : Event)
      → Simulates view IsValid
          (store.record_event_dictionary e)
          (token_store.record_event_dictionary e)
  pub init_events : Simulates view IsValid store.init_events token_store.init_events
  pub optional_key_list :
      (name : String) (e : Cep18Error)
      → e ≢ phantom
      → Simulates view IsValid
          (store.optional_key_list name e)
          (token_store.optional_key_list name e)
