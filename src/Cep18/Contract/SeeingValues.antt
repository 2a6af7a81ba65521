-- ===== src/Cep18/Contract/SeeingValues.antt =====
-- After a write the supply and the mode that the storage of a contract stands for are those that were
-- written, and the rest of its token is the same.
use casper_contract_kit.Base.{ℕ, ◌≡◌, sym, ◌∙◌, some, List, unwrap_or}
use casper_contract_kit.Casper.{Key, cl_value}
use casper_contract_kit.Casper.Codec.{Codec, Lossless}
use casper_contract_kit.Shim.{insert_value}
use casper_contract_kit.NamedKey.Updates.{with_value}
use casper_contract_kit.Cep18.Event.{Event}
use casper_contract_kit.Cep18.Modalities.{EventsMode}
use casper_contract_kit.Cep18.Contract.{Setting, Contract}
use casper_contract_kit.Cep18.Contract.View.{Layout, value, view, IsToken}
use casper_contract_kit.Cep18.Contract.Writing.{value_same, value_elsewhere}
use casper_contract_kit.Cep18.Contract.Reading.{IsFaithful}
use casper_contract_kit.Cep18.Contract.Updates.{with_env}

module _ {L : Type 0} (setting : Setting L) (events : L → List (EventsMode × Event)) (l : Layout)
    (faithful : IsFaithful setting events l) (c : Contract L) (t : IsToken setting events l c) where
  -- The values.
  stored_value :
      {T : Type 0} (codec : Codec T) (uref : ℕ) (v : T)
      → Lossless codec v
      → value codec uref
          (insert_value (Key.uref uref) (cl_value (codec.to_bytes v)) c.world.env.database)
        ≡ some v
  stored_value codec uref v lossless =
      value_same codec uref (codec.to_bytes v) c.world.env.database ∙ lossless

  pub supply_seen :
      (v : ℕ)
      → view setting events l
          (with_env c (with_value (Key.uref l.supply) (setting.u256_codec.to_bytes v) c.world.env))
        ≡ record (view setting events l c) { total_supply = some v }
  supply_seen v =
      let bytes = setting.u256_codec.to_bytes v in
      λ i. record (view setting events l c) {
        total_supply = stored_value setting.u256_codec l.supply v (faithful.u256_lossless v) i;
        enable_mint_burn =
            value_elsewhere setting.u8_codec l.supply bytes c.world.env.database l.mint_burn
              faithful.apart.supply_mint_burn i;
        events_mode = unwrap_or 0 (
            value_elsewhere setting.u8_codec l.supply bytes c.world.env.database l.mode
              faithful.apart.supply_mode i);
      }

  pub mode_seen :
      (v : ℕ)
      → view setting events l
          (with_env c (with_value (Key.uref l.mode) (setting.u8_codec.to_bytes v) c.world.env))
        ≡ record (view setting events l c) { events_mode = v }
  mode_seen v =
      let bytes = setting.u8_codec.to_bytes v in
      λ i. record (view setting events l c) {
        total_supply =
            value_elsewhere setting.u256_codec l.mode bytes c.world.env.database l.supply
              (λ e. faithful.apart.supply_mode (sym e)) i;
        enable_mint_burn =
            value_elsewhere setting.u8_codec l.mode bytes c.world.env.database l.mint_burn
              (λ e. faithful.apart.mint_burn_mode (sym e)) i;
        events_mode =
            unwrap_or 0 (stored_value setting.u8_codec l.mode v (faithful.u8_lossless v) i);
      }
