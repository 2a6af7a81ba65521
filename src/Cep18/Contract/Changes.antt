-- ===== src/Cep18/Contract/Changes.antt =====
-- Every write of balances.rs, allowances.rs, security.rs and the statics of cep18.rs does on the storage
-- of a contract what it does on its token.
use casper_contract_kit.Base.{
  ℕ, ◌≤◌, ◌≡◌, refl, Bytes, some, List, length, Exec, ok, map_err, arith,
}
use casper_contract_kit.Casper.{Key, ApiError}
use casper_contract_kit.Casper.Codec.{Codec}
use casper_contract_kit.Host.{World, NamedKey}
use casper_contract_kit.Shim.{Env}
use casper_contract_kit.NamedKey.{put_dict, write}
use casper_contract_kit.NamedKey.Ops.{Writes}
use casper_contract_kit.NamedKey.Updates.{with_item, with_value, put_dict-Writes, write-Writes}
use casper_contract_kit.Cep18.Error.{failed_to_read_from_storage}
use casper_contract_kit.Cep18.Badge.{SecurityBadge, badge_codec, badge_codec-Lossless}
use casper_contract_kit.Cep18.Event.{Event}
use casper_contract_kit.Cep18.Modalities.{EventsMode}
use casper_contract_kit.Cep18.Token.{Token, token_store, set_balance, set_allowance, set_badge}
use casper_contract_kit.Cep18.Simulation.{Simulates}
use casper_contract_kit.Cep18.Storage.{
  balances_dict, allowances_dict, balance_item_key, allowance_item_key, write_balance_to,
  write_allowance_to,
}
use casper_contract_kit.Cep18.Contract.{
  Setting, Contract, on_world, contract_store, total_supply_key, events_mode_key,
  security_badges_dict, badge_item_key,
}
use casper_contract_kit.Cep18.Contract.View.{Layout, view, IsToken, HasDictionary}
use casper_contract_kit.Cep18.Contract.Reading.{IsFaithful}
use casper_contract_kit.Cep18.Contract.Updates.{
  with_env, write-Agrees, balances_written, allowances_written, badges_written, supply_written,
  mode_written,
}
use casper_contract_kit.Cep18.Contract.Seeing.{balances_seen, allowances_seen, badges_seen}
use casper_contract_kit.Cep18.Contract.SeeingValues.{supply_seen, mode_seen}
use casper_contract_kit.Cep18.Contract.Accessors.{badge_short}

module _ {L : Type 0} (setting : Setting L) (events : L → List (EventsMode × Event)) (l : Layout)
    (faithful : IsFaithful setting events l) where
  open setting use {
    host, u256_codec, u8_codec, key_to_bytes, base64_encode, blake2b, hex_encode, package_key,
  }

  abbrev see_token : Contract L → Token
  see_token = view setting events l

  abbrev Valid : Contract L → Type 0
  Valid = IsToken setting events l

  dictionary-Writes :
      {T : Type 0} (codec : Codec T) (nk : NamedKey) (seed : ℕ) (key : Bytes) (v : T)
      (c : Contract L)
      → Valid c
      → (d : HasDictionary codec nk seed c.world) → length key ≤ host.item_key_max
      → Writes {X = ApiError} {E = ApiError} host
          (with_item seed key (codec.to_bytes v) d.content c.world.env)
          (put_dict host codec nk key v c.world)
  dictionary-Writes codec nk seed key v c t d short =
      put_dict-Writes host codec nk key v c.world seed d.content t.coherent d.name d.opened short

  Writes-map_err :
      {E F : Type 0} (f : E → F) (m : Exec World ApiError E (Unit {0})) (w : World) (e : Env)
      → Writes host e (m w)
      → Writes host e (map_err f m w)
  Writes-map_err f m w e r =
      rw (run) (record { value = refl; coherent = r.coherent; same = r.same })
    where
      run : map_err {X = ApiError} f m w ≡ (ok tt, (m w).1)
      run = ground (arith, r.value)

  write-sim :
      {E : Type 0} (m : Exec World ApiError E (Unit {0})) (after : (c : Contract L) → Valid c → Env)
      (change : Token → Token)
      → ((c : Contract L) (t : Valid c) → Writes host (after c t) (m c.world))
      → ((c : Contract L) (t : Valid c) → Valid (with_env c (after c t)))
      → ((c : Contract L) (t : Valid c) → see_token (with_env c (after c t)) ≡ change (see_token c))
      → Simulates see_token Valid (on_world m) (λ t. (ok tt, change t))
  write-sim m after change writes valid seen = record {
    run = λ c t.
        write-Agrees setting events l m (after c t) (change (see_token c)) c (writes c t)
          (valid c t) (seen c t);
  }

  pub write_balance-sim :
      (k : Key) (v : ℕ)
      → Simulates see_token Valid
          ((contract_store setting).write_balance_to k v)
          (token_store.write_balance_to k v)
  unfolding write_balance_to
  write_balance-sim k v =
      let key = balance_item_key key_to_bytes base64_encode k in
      write-sim (write_balance_to key_to_bytes base64_encode host u256_codec k v)
        (λ c t. with_item l.balances key (u256_codec.to_bytes v) t.balances.content c.world.env)
        (λ t. record t { balance = set_balance k v t.balance })
        (λ c t.
          Writes-map_err (λ _. failed_to_read_from_storage)
            (put_dict host u256_codec balances_dict key v) c.world _
            (dictionary-Writes u256_codec balances_dict l.balances key v c t t.balances
              (faithful.balance_short k)))
        (λ c t.
          balances_written setting events l faithful.apart c t key v (faithful.u256_lossless v))
        (λ c t. balances_seen setting events l faithful c t k v)

  pub write_allowance-sim :
      (o s : Key) (v : ℕ)
      → Simulates see_token Valid
          ((contract_store setting).write_allowance_to o s v)
          (token_store.write_allowance_to o s v)
  unfolding write_allowance_to
  write_allowance-sim o s v =
      let key = allowance_item_key key_to_bytes blake2b hex_encode (o, s) in
      write-sim (write_allowance_to key_to_bytes blake2b hex_encode host u256_codec o s v)
        (λ c t. with_item l.allowances key (u256_codec.to_bytes v) t.allowances.content c.world.env)
        (λ t. record t { allowance = set_allowance o s v t.allowance })
        (λ c t.
          Writes-map_err (λ _. failed_to_read_from_storage)
            (put_dict host u256_codec allowances_dict key v) c.world _
            (dictionary-Writes u256_codec allowances_dict l.allowances key v c t t.allowances
              (faithful.allowance_short (o, s))))
        (λ c t.
          allowances_written setting events l faithful.apart c t key v (faithful.u256_lossless v))
        (λ c t. allowances_seen setting events l faithful c t o s v)

  pub put_badge-sim :
      (k : Key) (b : SecurityBadge)
      → Simulates see_token Valid
          ((contract_store setting).put_badge k b)
          (token_store.put_badge k b)
  put_badge-sim k b =
      let key = badge_item_key setting k in
      let short : length key ≤ host.item_key_max = badge_short setting events l faithful k in
      write-sim (put_dict host badge_codec security_badges_dict key b)
        (λ c t. with_item l.badges key (badge_codec.to_bytes b) t.badges.content c.world.env)
        (λ t. record t { badge = set_badge k b t.badge })
        (λ c t.
          dictionary-Writes badge_codec security_badges_dict l.badges key b c t t.badges short)
        (λ c t. badges_written setting events l faithful.apart c t key b (badge_codec-Lossless b))
        (λ c t. badges_seen setting events l faithful c t k b)

  pub write_supply-sim :
      (v : ℕ)
      → Simulates see_token Valid
          ((contract_store setting).write_total_supply v)
          (token_store.write_total_supply v)
  write_supply-sim v =
      write-sim (write host u256_codec total_supply_key v)
        (λ c t. with_value (Key.uref l.supply) (u256_codec.to_bytes v) c.world.env)
        (λ t. record t { total_supply = some v })
        (λ c t.
          write-Writes host u256_codec total_supply_key (Key.uref l.supply) v c.world t.coherent
            t.supply.name)
        (λ c t. supply_written setting events l faithful.apart c t v (faithful.u256_lossless v))
        (λ c t. supply_seen setting events l faithful c t v)

  pub write_mode-sim :
      (v : ℕ)
      → Simulates see_token Valid
          ((contract_store setting).write_events_mode v)
          (token_store.write_events_mode v)
  write_mode-sim v =
      write-sim (write host u8_codec events_mode_key v)
        (λ c t. with_value (Key.uref l.mode) (u8_codec.to_bytes v) c.world.env)
        (λ t. record t { events_mode = v })
        (λ c t.
          write-Writes host u8_codec events_mode_key (Key.uref l.mode) v c.world t.coherent
            t.mode.name)
        (λ c t. mode_written setting events l faithful.apart c t v (faithful.u8_lossless v))
        (λ c t. mode_seen setting events l faithful c t v)
