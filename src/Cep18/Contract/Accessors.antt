-- ===== src/Cep18/Contract/Accessors.antt =====
-- Every read of balances.rs, allowances.rs, security.rs and the statics of cep18.rs finds in the storage
-- of a contract what its token has.
use casper_contract_kit.Base.{
  ℕ, ◌≤◌, ◌≡◌, ◌≢◌, refl, Bytes, Option, none, some, List, length, Exec, ok, pure, map_err,
  unwrap_or, ◌>>=◌,
}
use casper_contract_kit.Casper.{Key, ApiError}
use casper_contract_kit.Host.{World, NamedKey}
use casper_contract_kit.NamedKey.{read, get_dict}
use casper_contract_kit.NamedKey.Cache.{Reads, SameHost-refl}
use casper_contract_kit.NamedKey.Ops.{Reads-bind}
use casper_contract_kit.Cep18.Error.{failed_to_read_from_storage}
use casper_contract_kit.Cep18.Badge.{badge_codec}
use casper_contract_kit.Cep18.Event.{Event}
use casper_contract_kit.Cep18.Modalities.{EventsMode}
use casper_contract_kit.Cep18.Token.{Token, token_store}
use casper_contract_kit.Cep18.Simulation.{Simulates}
use casper_contract_kit.Cep18.Storage.{
  balances_dict, allowances_dict, balance_item_key, read_balance_from, read_allowance_from,
}
use casper_contract_kit.Cep18.Contract.{
  Setting, Contract, on_world, contract_store, total_supply_key, events_mode_key,
  enable_mint_burn_key, security_badges_dict, badge_item_key,
}
use casper_contract_kit.Cep18.Contract.View.{Layout, item, value, view, IsToken, HasDictionary}
use casper_contract_kit.Cep18.Contract.Reading.{
  IsFaithful, Reads-map_err, get_immediate_caller-Reads, read-Agrees, item-Reads, value-Reads,
}

module _ {L : Type 0} (setting : Setting L) (events : L → List (EventsMode × Event)) (l : Layout)
    (faithful : IsFaithful setting events l) where
  open setting use {
    host, u256_codec, u8_codec, key_to_bytes, base64_encode, blake2b, hex_encode, package_key,
  }

  abbrev see_token : Contract L → Token
  see_token = view setting events l

  abbrev Valid : Contract L → Type 0
  Valid = IsToken setting events l

  -- Numbers that default to 0.
  number-Reads :
      (nk : NamedKey) (seed : ℕ) (key : Bytes) (c : Contract L)
      → Valid c
      → HasDictionary u256_codec nk seed c.world
      → length key ≤ host.item_key_max
      → Reads host c.world (unwrap_or 0 (item u256_codec seed key c.world.env.dictionaries)) (
          (map_err {X = ApiError}
                (λ _. failed_to_read_from_storage)
                (get_dict host u256_codec nk key)
              >>= λ n. pure (unwrap_or 0 n))
            c.world)
  number-Reads nk seed key c t d short =
      Reads-bind host (map_err (λ _. failed_to_read_from_storage) (get_dict host u256_codec nk key))
        (λ n. pure (unwrap_or 0 n)) c.world
        (Reads-map_err host (λ _. failed_to_read_from_storage) (get_dict host u256_codec nk key)
          c.world (item-Reads setting events l faithful u256_codec nk seed key c t d short))
        (λ w' h s. record { value = refl; coherent = h; same = SameHost-refl w'.env })

  -- One sort of accessor each: a read, and a write that ends in a known host.
  read-sim :
      {E A : Type 0} (m : Exec World ApiError E A) (of_token : Token → A)
      → ((c : Contract L) → Valid c → Reads host c.world (of_token (see_token c)) (m c.world))
      → Simulates see_token Valid (on_world m) (λ t. (ok (of_token t), t))
  read-sim m of_token reads = record {
    run = λ c t. read-Agrees setting events l m (of_token (see_token c)) c t (reads c t);
  }

  pub badge_short : (k : Key) → length (badge_item_key setting k) ≤ host.item_key_max
  badge_short k = unfold balance_item_key in faithful.balance_short k

  pub caller-sim :
      Simulates see_token Valid
        (contract_store setting).get_immediate_caller
        token_store.get_immediate_caller
  caller-sim =
      read-sim _ (λ t. t.caller)
        (λ c t.
          get_immediate_caller-Reads host l.caller faithful.called package_key c.world t.coherent
            t.emptied)

  pub balance-sim :
      (k : Key)
      → Simulates see_token Valid
          ((contract_store setting).read_balance_from k)
          (token_store.read_balance_from k)
  unfolding read_balance_from
  balance-sim k =
      read-sim _ (λ t. t.balance k)
        (λ c t. number-Reads balances_dict l.balances _ c t t.balances (faithful.balance_short k))

  pub allowance-sim :
      (o s : Key)
      → Simulates see_token Valid
          ((contract_store setting).read_allowance_from o s)
          (token_store.read_allowance_from o s)
  unfolding read_allowance_from
  allowance-sim o s =
      read-sim _ (λ t. t.allowance o s)
        (λ c t.
          number-Reads allowances_dict l.allowances _ c t t.allowances
            (faithful.allowance_short (o, s)))

  pub supply-sim :
      Simulates see_token Valid
        (contract_store setting).read_total_supply
        token_store.read_total_supply
  supply-sim =
      read-sim _ (λ t. t.total_supply)
        (λ c t.
          (value-Reads setting events l faithful u256_codec total_supply_key l.supply c t
            t.supply).1)

  pub mint_burn-sim :
      Simulates see_token Valid
        (contract_store setting).read_enable_mint_burn
        token_store.read_enable_mint_burn
  mint_burn-sim =
      read-sim _ (λ t. t.enable_mint_burn)
        (λ c t.
          (value-Reads setting events l faithful u8_codec enable_mint_burn_key l.mint_burn c t
            t.mint_burn).1)

  -- The stored mode is there, and is the token's.
  pub mode-Reads :
      (c : Contract L)
      → Valid c
      → Reads {X = ApiError} {E = ApiError} host c.world
          (some (see_token c).events_mode)
          (read host u8_codec events_mode_key c.world)
  mode-Reads c t =
      let (there, r) =
        value-Reads setting events l faithful u8_codec events_mode_key l.mode c t t.mode in
      rw (unwrapped (value u8_codec l.mode c.world.env.database) there) r
    where
      unwrapped : (o : Option ℕ) → o ≢ none → some (unwrap_or 0 o) ≡ o
      unwrapped none h = absurd (h refl)
      unwrapped (some n) h = refl

  pub read_mode-sim :
      Simulates see_token Valid
        (contract_store setting).read_events_mode
        token_store.read_events_mode
  read_mode-sim = read-sim _ (λ t. some t.events_mode) mode-Reads

  pub badge-sim :
      (k : Key)
      → Simulates see_token Valid ((contract_store setting).get_badge k) (token_store.get_badge k)
  badge-sim k =
      read-sim _ (λ t. t.badge k)
        (λ c t.
          item-Reads setting events l faithful badge_codec security_badges_dict l.badges _ c t
            t.badges (badge_short k))
