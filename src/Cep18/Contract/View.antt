-- ===== src/Cep18/Contract/View.antt =====
-- The token that the storage of a contract stands for, and which storage stands for one: the six
-- named keys of cep18.rs lead to different dictionaries and values, and all that is stored decodes.
use casper_contract_kit.Base.{
  ℕ, ◌≡◌, ◌≢◌, ap, ◌∙◌, String, Bytes, Option, none, some, List, unwrap_or,
}
use casper_contract_kit.Casper.{Key, StoredValue, cl_value}
use casper_contract_kit.Casper.Codec.{Codec}
use casper_contract_kit.Host.{World, NamedKey, IsCoherent, SameHost}
use casper_contract_kit.Shim.{Dictionary}
use casper_contract_kit.NamedKey.Ops.{Holds}
use casper_contract_kit.Cep18.Badge.{badge_codec}
use casper_contract_kit.Cep18.Event.{Event}
use casper_contract_kit.Cep18.Modalities.{EventsMode}
use casper_contract_kit.Cep18.Token.{Token, KeyList, absent, malformed, keys}
use casper_contract_kit.Cep18.Storage.{
  balances_dict, allowances_dict, balance_item_key, allowance_item_key,
}
use casper_contract_kit.Cep18.Contract.{
  Setting, Contract, total_supply_key, events_mode_key, enable_mint_burn_key, security_badges_dict,
  badge_item_key,
}

-- Where the named keys lead, and which account calls.
pub record Layout : Type 0 where
  pub caller : ℕ
  pub balances : ℕ
  pub allowances : ℕ
  pub badges : ℕ
  pub supply : ℕ
  pub mint_burn : ℕ
  pub mode : ℕ

pub record AreApart (l : Layout) : Type 0 where
  pub balances_allowances : l.balances ≢ l.allowances
  pub balances_badges : l.balances ≢ l.badges
  pub allowances_badges : l.allowances ≢ l.badges
  pub supply_mint_burn : l.supply ≢ l.mint_burn
  pub supply_mode : l.supply ≢ l.mode
  pub mint_burn_mode : l.mint_burn ≢ l.mode

-- What is stored under an item of a dictionary, and under a URef.
module _ {T : Type 0} (codec : Codec T) where
  abbrev pub decoded : Option Bytes → Option T
  decoded none = none
  decoded (some bytes) = codec.from_bytes bytes

  abbrev pub in_dictionary : Option Dictionary → Bytes → Option T
  in_dictionary none key = none
  in_dictionary (some d) key = decoded (d key)

  abbrev pub in_value : Option StoredValue → Option T
  in_value none = none
  in_value (some (cl_value bytes)) = codec.from_bytes bytes
  in_value (some StoredValue.other) = none

  abbrev pub item : ℕ → Bytes → (ℕ → Option Dictionary) → Option T
  item seed key dictionaries = in_dictionary (dictionaries seed) key

  abbrev pub value : ℕ → (Key → Option StoredValue) → Option T
  value uref database = in_value (database (Key.uref uref))

  -- The name stands for a dictionary, and all of its items decode.
  pub record HasDictionary (nk : NamedKey) (seed : ℕ) (w : World) : Type 0 where
    pub name : w.env.named_keys nk.name ≡ some (Key.uref seed)
    pub content : Dictionary
    pub opened : w.env.dictionaries seed ≡ some content
    pub whole : (key : Bytes) → Holds codec (content key) (decoded (content key))

  -- The name stands for a value, which decodes.
  pub record HasValue (nk : NamedKey) (uref : ℕ) (w : World) : Type 0 where
    pub name : w.env.named_keys nk.name ≡ some (Key.uref uref)
    pub bytes : Bytes
    pub stored : w.env.database (Key.uref uref) ≡ some (cl_value bytes)
    pub content : T
    pub decodes : codec.from_bytes bytes ≡ some content

-- Names and contents that stay.
module _ {T : Type 0} (codec : Codec T) (nk : NamedKey) (seed : ℕ) (w w' : World)
    (names : w'.env.named_keys ≡ w.env.named_keys) where
  pub same_dictionary :
      w'.env.dictionaries ≡ w.env.dictionaries
      → HasDictionary codec nk seed w
      → HasDictionary codec nk seed w'
  same_dictionary same d = record {
    name = ap (λ f. f nk.name) names ∙ d.name;
    content = d.content;
    opened = ap (λ f. f seed) same ∙ d.opened;
    whole = d.whole;
  }

  pub same_value :
      w'.env.database ≡ w.env.database → HasValue codec nk seed w → HasValue codec nk seed w'
  same_value same d = record {
    name = ap (λ f. f nk.name) names ∙ d.name;
    bytes = d.bytes;
    stored = ap (λ f. f (Key.uref seed)) same ∙ d.stored;
    content = d.content;
    decodes = d.decodes;
  }

module _ {L : Type 0} (setting : Setting L) (events : L → List (EventsMode × Event))
    (l : Layout) where
  abbrev pub key_list : Option Bytes → KeyList
  key_list none = absent
  key_list (some bytes) = elim (setting.key_list_codec.from_bytes bytes) [
    | none ↦ malformed
    | some list ↦ keys list
  ]

  -- The token, from what the host stores.
  abbrev pub see :
      (Key → Option StoredValue) → (ℕ → Option Dictionary) → (String → Option Bytes) → L → Token
  see database dictionaries args log = record {
    caller = Key.account l.caller;
    balance = λ k. unwrap_or 0 (
        item setting.u256_codec l.balances
          (balance_item_key setting.key_to_bytes setting.base64_encode k) dictionaries);
    allowance = λ o s. unwrap_or 0 (
        item setting.u256_codec l.allowances
          (allowance_item_key setting.key_to_bytes setting.blake2b setting.hex_encode (o, s))
          dictionaries);
    total_supply = value setting.u256_codec l.supply database;
    enable_mint_burn = value setting.u8_codec l.mint_burn database;
    events_mode = unwrap_or 0 (value setting.u8_codec l.mode database);
    badge = λ k. item badge_codec l.badges (badge_item_key setting k) dictionaries;
    key_lists = λ name. key_list (args name);
    has_schemas = setting.has_events_dict log;
    events = events log;
  }

  abbrev pub view : Contract L → Token
  view c = see c.world.env.database c.world.env.dictionaries c.world.env.args c.log

  pub record IsToken (c : Contract L) : Type 0 where
    pub coherent : IsCoherent setting.host c.world
    pub emptied : c.world.env.host_buffer ≡ none
    pub balances : HasDictionary setting.u256_codec balances_dict l.balances c.world
    pub allowances : HasDictionary setting.u256_codec allowances_dict l.allowances c.world
    pub badges : HasDictionary badge_codec security_badges_dict l.badges c.world
    pub supply : HasValue setting.u256_codec total_supply_key l.supply c.world
    pub mint_burn : HasValue setting.u8_codec enable_mint_burn_key l.mint_burn c.world
    pub mode : HasValue setting.u8_codec events_mode_key l.mode c.world

  -- A call that the host does not remember changes no token.
  pub see_same :
      (c : Contract L) (w : World)
      → SameHost c.world.env w.env
      → view (record c { world = w }) ≡ view c
  see_same c w s = λ i. see (s.database i) (s.dictionaries i) (s.args i) c.log

  pub same-IsToken :
      (c : Contract L) (w : World)
      → IsCoherent setting.host w
      → SameHost c.world.env w.env
      → IsToken c
      → IsToken (record c { world = w })
  same-IsToken c w h s t = record {
    coherent = h;
    emptied = s.host_buffer ∙ t.emptied;
    balances = same_dictionary _ _ _ c.world w s.named_keys s.dictionaries t.balances;
    allowances = same_dictionary _ _ _ c.world w s.named_keys s.dictionaries t.allowances;
    badges = same_dictionary _ _ _ c.world w s.named_keys s.dictionaries t.badges;
    supply = same_value _ _ _ c.world w s.named_keys s.database t.supply;
    mint_burn = same_value _ _ _ c.world w s.named_keys s.database t.mint_burn;
    mode = same_value _ _ _ c.world w s.named_keys s.database t.mode;
  }
