-- ===== src/Cep18/Contract/Install/Values.antt =====
-- What an installation stores for the contract: six named keys with a new URef each (`install_contract`
-- of crates/contract-extras/src/cep18.rs).
use casper_contract_kit.Base.{
  ℕ, ◌+◌, ◌<◌, ◌^◌, ◌≡◌, ◌∙◌, String, Bytes, none, some, List, [], ◌∷◌, ok, ◌>>=◌, bind-run, arith,
}
use casper_contract_kit.Casper.{Key, ApiError, cl_value}
use casper_contract_kit.Host.{World, Action, NamedKey}
use casper_contract_kit.NamedKey.Values.{append_value, stored, append_value_run}
use casper_contract_kit.Cep18.Contract.{
  Setting, name_key, symbol_key, decimals_key, total_supply_key, events_mode_key,
  enable_mint_burn_key,
}
use casper_contract_kit.Cep18.Contract.Install.{Stored, append_all}

-- An execution that has not looked at the six names, which the host does not have.
pub record IsNew (w : World) : Type 0 where
  pub cells : (nk : NamedKey) → w.cells nk ≡ none
  pub name : w.env.named_keys "name" ≡ none
  pub symbol : w.env.named_keys "symbol" ≡ none
  pub decimals : w.env.named_keys "decimals" ≡ none
  pub total_supply : w.env.named_keys "total_supply" ≡ none
  pub events_mode : w.env.named_keys "events_mode" ≡ none
  pub enable_mint_burn : w.env.named_keys "enable_mint_burn" ≡ none

module _ {L : Type 0} (setting : Setting L) (v : Stored) (w : World) (new : IsNew w)
    (room : w.env.address_generator + 6 < 2 ^ 256) where
  open setting use {host, u256_codec, u8_codec, string_codec}

  -- After `name`.
  abbrev w1 : World
  w1 = stored name_key (string_codec.to_bytes v.name) w

  abbrev named1 : List (String × Key)
  named1 = ("name", Key.uref w1.env.address_generator) ∷ []

  abbrev append1 : Action ApiError (List (String × Key))
  append1 = append_value host string_codec name_key v.name []

  run1 : append1 w ≡ (ok named1, w1)
  run1 =
      append_value_run host string_codec v.name w (omega arith) name_key [] (new.cells name_key)
        new.name

  -- After `symbol`.
  abbrev w2 : World
  w2 = stored symbol_key (string_codec.to_bytes v.symbol) w1

  abbrev named2 : List (String × Key)
  named2 = ("symbol", Key.uref w2.env.address_generator) ∷ named1

  abbrev append2 : Action ApiError (List (String × Key))
  append2 = append1 >>= append_value host string_codec symbol_key v.symbol

  run2 : append2 w ≡ (ok named2, w2)
  run2 =
      bind-run append1 (append_value host string_codec symbol_key v.symbol) w run1
      ∙ append_value_run host string_codec v.symbol w1 (omega arith) symbol_key named1
          (new.cells symbol_key) new.symbol

  -- After `decimals`.
  abbrev w3 : World
  w3 = stored decimals_key (u8_codec.to_bytes v.decimals) w2

  abbrev named3 : List (String × Key)
  named3 = ("decimals", Key.uref w3.env.address_generator) ∷ named2

  abbrev append3 : Action ApiError (List (String × Key))
  append3 = append2 >>= append_value host u8_codec decimals_key v.decimals

  run3 : append3 w ≡ (ok named3, w3)
  run3 =
      bind-run append2 (append_value host u8_codec decimals_key v.decimals) w run2
      ∙ append_value_run host u8_codec v.decimals w2 (omega arith) decimals_key named2
          (new.cells decimals_key) new.decimals

  -- After `total_supply`.
  abbrev w4 : World
  w4 = stored total_supply_key (u256_codec.to_bytes v.total_supply) w3

  abbrev named4 : List (String × Key)
  named4 = ("total_supply", Key.uref w4.env.address_generator) ∷ named3

  abbrev append4 : Action ApiError (List (String × Key))
  append4 = append3 >>= append_value host u256_codec total_supply_key v.total_supply

  run4 : append4 w ≡ (ok named4, w4)
  run4 =
      bind-run append3 (append_value host u256_codec total_supply_key v.total_supply) w run3
      ∙ append_value_run host u256_codec v.total_supply w3 (omega arith) total_supply_key named3
          (new.cells total_supply_key) new.total_supply

  -- After `events_mode`.
  abbrev w5 : World
  w5 = stored events_mode_key (u8_codec.to_bytes v.events_mode) w4

  abbrev named5 : List (String × Key)
  named5 = ("events_mode", Key.uref w5.env.address_generator) ∷ named4

  abbrev append5 : Action ApiError (List (String × Key))
  append5 = append4 >>= append_value host u8_codec events_mode_key v.events_mode

  run5 : append5 w ≡ (ok named5, w5)
  run5 =
      bind-run append4 (append_value host u8_codec events_mode_key v.events_mode) w run4
      ∙ append_value_run host u8_codec v.events_mode w4 (omega arith) events_mode_key named4
          (new.cells events_mode_key) new.events_mode

  -- After `enable_mint_burn`.
  abbrev w6 : World
  w6 = stored enable_mint_burn_key (u8_codec.to_bytes v.enable_mint_burn) w5

  abbrev named6 : List (String × Key)
  named6 = ("enable_mint_burn", Key.uref w6.env.address_generator) ∷ named5

  abbrev append6 : Action ApiError (List (String × Key))
  append6 = append5 >>= append_value host u8_codec enable_mint_burn_key v.enable_mint_burn

  run6 : append6 w ≡ (ok named6, w6)
  run6 =
      bind-run append5 (append_value host u8_codec enable_mint_burn_key v.enable_mint_burn) w run5
      ∙ append_value_run host u8_codec v.enable_mint_burn w5 (omega arith) enable_mint_burn_key
          named5 (new.cells enable_mint_burn_key) new.enable_mint_burn

  -- Six new named keys are stored by an execution that has not looked at their names, if the host does
  -- not have them and has six addresses left: each name is given a URef of its own, which no other
  -- has and which holds the serialized argument.
  pub append_all_effect :
      let r = append_all setting v w in
      let a = w.env.address_generator in
      let holds =
        λ (uref : ℕ) (bytes : Bytes). r.1.env.database (Key.uref uref) ≡ some (cl_value bytes) in
      (r.0
        ≡ ok (
            ("enable_mint_burn", Key.uref (a + 6))
            ∷ ("events_mode", Key.uref (a + 5))
            ∷ ("total_supply", Key.uref (a + 4))
            ∷ ("decimals", Key.uref (a + 3))
            ∷ ("symbol", Key.uref (a + 2))
            ∷ ("name", Key.uref (a + 1))
            ∷ []))
      × holds (a + 1) (string_codec.to_bytes v.name)
      × holds (a + 2) (string_codec.to_bytes v.symbol)
      × holds (a + 3) (u8_codec.to_bytes v.decimals)
      × holds (a + 4) (u256_codec.to_bytes v.total_supply)
      × holds (a + 5) (u8_codec.to_bytes v.events_mode)
      × holds (a + 6) (u8_codec.to_bytes v.enable_mint_burn)
      × (r.1.env.address_generator ≡ a + 6)
  unfolding append_all
  append_all_effect = rw run6 (
    ground arith,
    ground arith,
    ground arith,
    ground arith,
    ground arith,
    ground arith,
    ground arith,
    omega arith,
  )
