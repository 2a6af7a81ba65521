-- ===== src/Cep18/Contract/Updates.antt =====
-- After a write the storage of a contract still stands for a token.
use casper_contract_kit.Base.{ℕ, ◌≡◌, refl, sym, ◌∙◌, Bytes, List, Exec, ok}
use casper_contract_kit.Casper.{Key, ApiError}
use casper_contract_kit.Casper.Codec.{Lossless}
use casper_contract_kit.Host.{World, IsCoherent}
use casper_contract_kit.Shim.{Env}
use casper_contract_kit.NamedKey.Ops.{Writes, IsCoherent-after}
use casper_contract_kit.NamedKey.Updates.{with_item, with_value}
use casper_contract_kit.Cep18.Badge.{SecurityBadge, badge_codec}
use casper_contract_kit.Cep18.Event.{Event}
use casper_contract_kit.Cep18.Modalities.{EventsMode}
use casper_contract_kit.Cep18.Token.{Token}
use casper_contract_kit.Cep18.Simulation.{Agrees}
use casper_contract_kit.Cep18.Contract.{Setting, Contract, on_world}
use casper_contract_kit.Cep18.Contract.View.{
  Layout, AreApart, view, IsToken, see_same, same_dictionary, same_value, same-IsToken,
}
use casper_contract_kit.Cep18.Contract.Writing.{
  written_dictionary, other_dictionary, written_value, other_value,
}

abbrev pub with_env : {L : Type 0} → Contract L → Env → Contract L
with_env c e = record c { world = record c.world { env = e } }

module _ {L : Type 0} (setting : Setting L) (events : L → List (EventsMode × Event))
    (l : Layout) where
  -- A call that leaves the host as `e` agrees with one that leaves the token of `e`.
  pub write-Agrees :
      {X : Type 0} (m : Exec World ApiError X (Unit {0})) (e : Env) (t : Token) (c : Contract L)
      → Writes setting.host e (m c.world)
      → IsToken setting events l (with_env c e)
      → view setting events l (with_env c e) ≡ t
      → Agrees (view setting events l) (IsToken setting events l) (on_world m c) (ok tt, t)
  write-Agrees m e t c written valid same = record {
    outcome = written.value;
    state = see_same setting events l (with_env c e) (m c.world).1 written.same ∙ same;
    valid =
        same-IsToken setting events l (with_env c e) (m c.world).1 written.coherent written.same
          valid;
  }

  module _ (apart : AreApart l) (c : Contract L) (t : IsToken setting events l c) where
    -- The cells agree with a host of the same names.
    IsCoherent-with :
        (e : Env)
        → e.named_keys ≡ c.world.env.named_keys
        → IsCoherent setting.host (record c.world { env = e })
    IsCoherent-with e names = IsCoherent-after setting.host c.world _ t.coherent names refl

    pub balances_written :
        (key : Bytes) (v : ℕ)
        → Lossless setting.u256_codec v
        → IsToken setting events l (
            with_env c (
              with_item l.balances key
                (setting.u256_codec.to_bytes v)
                t.balances.content
                c.world.env))
    balances_written key v lossless = record {
      coherent = IsCoherent-with _ refl;
      emptied = t.emptied;
      balances = written_dictionary _ _ _ c.world key v t.balances lossless;
      allowances =
          other_dictionary _ _ _ c.world l.balances _ apart.balances_allowances t.allowances;
      badges = other_dictionary _ _ _ c.world l.balances _ apart.balances_badges t.badges;
      supply = same_value _ _ _ c.world _ refl refl t.supply;
      mint_burn = same_value _ _ _ c.world _ refl refl t.mint_burn;
      mode = same_value _ _ _ c.world _ refl refl t.mode;
    }

    pub allowances_written :
        (key : Bytes) (v : ℕ)
        → Lossless setting.u256_codec v
        → IsToken setting events l (
            with_env c (
              with_item l.allowances key
                (setting.u256_codec.to_bytes v)
                t.allowances.content
                c.world.env))
    allowances_written key v lossless = record {
      coherent = IsCoherent-with _ refl;
      emptied = t.emptied;
      balances =
          other_dictionary _ _ _ c.world l.allowances _ (λ e. apart.balances_allowances (sym e))
            t.balances;
      allowances = written_dictionary _ _ _ c.world key v t.allowances lossless;
      badges = other_dictionary _ _ _ c.world l.allowances _ apart.allowances_badges t.badges;
      supply = same_value _ _ _ c.world _ refl refl t.supply;
      mint_burn = same_value _ _ _ c.world _ refl refl t.mint_burn;
      mode = same_value _ _ _ c.world _ refl refl t.mode;
    }

    pub badges_written :
        (key : Bytes) (v : SecurityBadge)
        → Lossless badge_codec v
        → IsToken setting events l (
            with_env c
              (with_item l.badges key (badge_codec.to_bytes v) t.badges.content c.world.env))
    badges_written key v lossless = record {
      coherent = IsCoherent-with _ refl;
      emptied = t.emptied;
      balances =
          other_dictionary _ _ _ c.world l.badges _ (λ e. apart.balances_badges (sym e)) t.balances;
      allowances =
          other_dictionary _ _ _ c.world l.badges _ (λ e. apart.allowances_badges (sym e))
            t.allowances;
      badges = written_dictionary _ _ _ c.world key v t.badges lossless;
      supply = same_value _ _ _ c.world _ refl refl t.supply;
      mint_burn = same_value _ _ _ c.world _ refl refl t.mint_burn;
      mode = same_value _ _ _ c.world _ refl refl t.mode;
    }

    pub supply_written :
        (v : ℕ)
        → Lossless setting.u256_codec v
        → IsToken setting events l (
            with_env c (with_value (Key.uref l.supply) (setting.u256_codec.to_bytes v) c.world.env))
    supply_written v lossless = record {
      coherent = IsCoherent-with _ refl;
      emptied = t.emptied;
      balances = same_dictionary _ _ _ c.world _ refl refl t.balances;
      allowances = same_dictionary _ _ _ c.world _ refl refl t.allowances;
      badges = same_dictionary _ _ _ c.world _ refl refl t.badges;
      supply = written_value _ _ _ c.world v t.supply lossless;
      mint_burn = other_value _ _ _ c.world l.supply _ apart.supply_mint_burn t.mint_burn;
      mode = other_value _ _ _ c.world l.supply _ apart.supply_mode t.mode;
    }

    pub mode_written :
        (v : ℕ)
        → Lossless setting.u8_codec v
        → IsToken setting events l
            (with_env c (with_value (Key.uref l.mode) (setting.u8_codec.to_bytes v) c.world.env))
    mode_written v lossless = record {
      coherent = IsCoherent-with _ refl;
      emptied = t.emptied;
      balances = same_dictionary _ _ _ c.world _ refl refl t.balances;
      allowances = same_dictionary _ _ _ c.world _ refl refl t.allowances;
      badges = same_dictionary _ _ _ c.world _ refl refl t.badges;
      supply = other_value _ _ _ c.world l.mode _ (λ e. apart.supply_mode (sym e)) t.supply;
      mint_burn =
          other_value _ _ _ c.world l.mode _ (λ e. apart.mint_burn_mode (sym e)) t.mint_burn;
      mode = written_value _ _ _ c.world v t.mode lossless;
    }
