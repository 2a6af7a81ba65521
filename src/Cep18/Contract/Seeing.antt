-- ===== src/Cep18/Contract/Seeing.antt =====
-- After a write the token that the storage of a contract stands for has what was written, and is
-- otherwise the same.
use casper_contract_kit.Base.{
  ℕ, ◌≡◌, ◌≢◌, refl, sym, ap, inl, inr, Bytes, Bool-cases, Option, List, unwrap_or, fun_ext, ◌&&◌,
  arith,
}
use casper_contract_kit.Casper.{Key, Key-discrete, key_eq}
use casper_contract_kit.Casper.Codec.{Codec}
use casper_contract_kit.Shim.{Dictionary, insert_item, insert_dictionary}
use casper_contract_kit.NamedKey.Updates.{with_item}
use casper_contract_kit.Cep18.Badge.{SecurityBadge, badge_codec, badge_codec-Lossless}
use casper_contract_kit.Cep18.Event.{Event}
use casper_contract_kit.Cep18.Modalities.{EventsMode}
use casper_contract_kit.Cep18.Token.{set_balance, set_allowance, set_badge}
use casper_contract_kit.Cep18.Contract.{Setting, Contract}
use casper_contract_kit.Cep18.Contract.View.{Layout, item, view, IsToken}
use casper_contract_kit.Cep18.Contract.Writing.{item_same, item_other, item_elsewhere}
use casper_contract_kit.Cep18.Storage.{balance_item_key, allowance_item_key}
use casper_contract_kit.Cep18.Contract.{badge_item_key}
use casper_contract_kit.Cep18.Contract.Reading.{IsFaithful}
use casper_contract_kit.Cep18.Contract.Updates.{with_env}

module _ {L : Type 0} (setting : Setting L) (events : L → List (EventsMode × Event)) (l : Layout)
    (faithful : IsFaithful setting events l) (c : Contract L) (t : IsToken setting events l c) where
  abbrev balance_key : Key → Bytes
  balance_key k = balance_item_key setting.key_to_bytes setting.base64_encode k

  abbrev allowance_key : Key → Key → Bytes
  allowance_key o s =
      allowance_item_key setting.key_to_bytes setting.blake2b setting.hex_encode (o, s)

  -- The items of two dictionaries do not depend on each other.
  apart_item :
      {T : Type 0} (codec : Codec T) (seed seed' : ℕ) (key bytes : Bytes) (d : Dictionary)
      → seed ≢ seed'
      → ◌≡◌ {A = Bytes → Option T}
          (λ j.
            item codec seed' j
              (insert_dictionary seed (insert_item key bytes d) c.world.env.dictionaries))
          (λ j. item codec seed' j c.world.env.dictionaries)
  apart_item codec seed seed' key bytes d apart =
      fun_ext (λ j. item_elsewhere codec seed key bytes d c.world.env.dictionaries seed' j apart)

  balance_seen :
      (k j : Key) (v : ℕ)
      → unwrap_or 0 (
          item setting.u256_codec l.balances (balance_key j) (
            insert_dictionary l.balances
              (insert_item (balance_key k) (setting.u256_codec.to_bytes v) t.balances.content)
              c.world.env.dictionaries))
        ≡ set_balance k v (view setting events l c).balance j
  balance_seen k j v = elim (Key-discrete j k) [
    | yes e ↦
        let key : balance_key k ≡ balance_key j = ap balance_key (sym e) in
        rw
          (
            item_same setting.u256_codec l.balances (balance_key k) (setting.u256_codec.to_bytes v)
                t.balances.content c.world.env.dictionaries (balance_key j) key,
            faithful.u256_lossless v,
          )
          (ground (arith, e))
    | no n ↦
        let key : balance_key k ≢ balance_key j = λ p. n (sym (faithful.balance_injective k j p)) in
        rw
          (item_other setting.u256_codec l.balances (balance_key k) (setting.u256_codec.to_bytes v)
            t.balances.content c.world.env.dictionaries (balance_key j) t.balances.opened key)
          (ground (arith, n))
  ]

  pub balances_seen :
      (k : Key) (v : ℕ)
      → view setting events l (
          with_env c (
            with_item l.balances
              (balance_key k)
              (setting.u256_codec.to_bytes v)
              t.balances.content
              c.world.env))
        ≡ record (view setting events l c) {
          balance = set_balance k v (view setting events l c).balance;
        }
  balances_seen k v =
      let key = balance_key k in
      let bytes = setting.u256_codec.to_bytes v in
      let d = t.balances.content in
      let allowances =
        apart_item setting.u256_codec l.balances l.allowances key bytes d
          faithful.apart.balances_allowances in
      let badges =
        apart_item badge_codec l.balances l.badges key bytes d faithful.apart.balances_badges in
      λ i. record (view setting events l c) {
        balance = λ j. balance_seen k j v i;
        allowance = λ o s. unwrap_or 0 (allowances i (allowance_key o s));
        badge = λ j. badges i (badge_item_key setting j);
      }

  badge_seen :
      (k j : Key) (b : SecurityBadge)
      → item badge_codec l.badges (badge_item_key setting j) (
          insert_dictionary l.badges
            (insert_item (badge_item_key setting k) (badge_codec.to_bytes b) t.badges.content)
            c.world.env.dictionaries)
        ≡ set_badge k b (view setting events l c).badge j
  badge_seen k j b = elim (Key-discrete j k) [
    | yes e ↦
        let key : badge_item_key setting k ≡ badge_item_key setting j =
          ap (badge_item_key setting) (sym e) in
        rw
          (
            item_same badge_codec l.badges (badge_item_key setting k) (badge_codec.to_bytes b)
                t.badges.content c.world.env.dictionaries (badge_item_key setting j) key,
            badge_codec-Lossless b,
          )
          (ground (arith, e))
    | no n ↦
        let key : badge_item_key setting k ≢ badge_item_key setting j =
          λ p. n (sym (unfold balance_item_key in faithful.balance_injective k j p)) in
        rw
          (item_other badge_codec l.badges (badge_item_key setting k) (badge_codec.to_bytes b)
            t.badges.content c.world.env.dictionaries (badge_item_key setting j) t.badges.opened
            key)
          (ground (arith, n))
  ]

  pub badges_seen :
      (k : Key) (b : SecurityBadge)
      → view setting events l (
          with_env c (
            with_item l.badges
              (badge_item_key setting k)
              (badge_codec.to_bytes b)
              t.badges.content
              c.world.env))
        ≡ record (view setting events l c) { badge = set_badge k b (view setting events l c).badge }
  badges_seen k b =
      let key = badge_item_key setting k in
      let bytes = badge_codec.to_bytes b in
      let d = t.badges.content in
      let balances =
        apart_item setting.u256_codec l.badges l.balances key bytes d
          (λ e. faithful.apart.balances_badges (sym e)) in
      let allowances =
        apart_item setting.u256_codec l.badges l.allowances key bytes d
          (λ e. faithful.apart.allowances_badges (sym e)) in
      λ i. record (view setting events l c) {
        balance = λ j. unwrap_or 0 (balances i (balance_key j));
        allowance = λ o s. unwrap_or 0 (allowances i (allowance_key o s));
        badge = λ j. badge_seen k j b i;
      }

  allowance_seen :
      (o s o' s' : Key) (v : ℕ)
      → unwrap_or 0 (
          item setting.u256_codec l.allowances (allowance_key o' s') (
            insert_dictionary l.allowances
              (insert_item (allowance_key o s) (setting.u256_codec.to_bytes v) t.allowances.content)
              c.world.env.dictionaries))
        ≡ set_allowance o s v (view setting events l c).allowance o' s'
  allowance_seen o s o' s' v = elim (Bool-cases (key_eq o' o && key_eq s' s)) [
    | inl both ↦
        let owner : o' ≡ o = ground (arith, both) in
        let spender : s' ≡ s = ground (arith, both) in
        let key : allowance_key o s ≡ allowance_key o' s' =
          λ i. allowance_key (sym owner i) (sym spender i) in
        rw
          (
            item_same setting.u256_codec l.allowances (allowance_key o s)
                (setting.u256_codec.to_bytes v) t.allowances.content c.world.env.dictionaries
                (allowance_key o' s') key,
            faithful.u256_lossless v,
            both,
          )
          refl
    | inr differ ↦
        let key : allowance_key o s ≢ allowance_key o' s' = λ p.
          let (owner, spender) = faithful.allowance_injective o s o' s' p in
          ground (arith, differ) in
        rw
          (
            item_other setting.u256_codec l.allowances (allowance_key o s)
                (setting.u256_codec.to_bytes v) t.allowances.content c.world.env.dictionaries
                (allowance_key o' s') t.allowances.opened key,
            differ,
          )
          refl
  ]

  pub allowances_seen :
      (o s : Key) (v : ℕ)
      → view setting events l (
          with_env c (
            with_item l.allowances
              (allowance_key o s)
              (setting.u256_codec.to_bytes v)
              t.allowances.content
              c.world.env))
        ≡ record (view setting events l c) {
          allowance = set_allowance o s v (view setting events l c).allowance;
        }
  allowances_seen o s v =
      let key = allowance_key o s in
      let bytes = setting.u256_codec.to_bytes v in
      let d = t.allowances.content in
      let balances =
        apart_item setting.u256_codec l.allowances l.balances key bytes d
          (λ e. faithful.apart.balances_allowances (sym e)) in
      let badges =
        apart_item badge_codec l.allowances l.badges key bytes d faithful.apart.allowances_badges in
      λ i. record (view setting events l c) {
        balance = λ j. unwrap_or 0 (balances i (balance_key j));
        allowance = λ o' s'. allowance_seen o s o' s' v i;
        badge = λ j. badges i (badge_item_key setting j);
      }
