-- ===== src/Cep18/Contract/OptionalArguments.antt =====
-- An optional list of keys that an entry point is given is the one that its token is given (utils.rs of
-- crates/contract-extras/src/cep18).
use casper_contract_kit.Base.{
  ◌≡◌, ◌≢◌, refl, sym, ap, ◌∙◌, inl, inr, String, Bytes, Option, none, some, Option-cases, List,
  Exec, ok, stop, arith, reverted,
}
use casper_contract_kit.Casper.{ApiError, Key}
use casper_contract_kit.Host.{World, SameHost}
use casper_contract_kit.Shim.{casper_get_named_arg_size, casper_get_named_arg}
use casper_contract_kit.NamedKey.Ops.{IsCoherent-after}
use casper_contract_kit.Casper.Codec.{Codec}
use casper_contract_kit.Cep18.Error.{Cep18Error, phantom, to_api_error}
use casper_contract_kit.Cep18.Event.{Event}
use casper_contract_kit.Cep18.Modalities.{EventsMode}
use casper_contract_kit.Cep18.Token.{
  Token, KeyList, keys, absent, malformed, key_list_of, token_store,
}
use casper_contract_kit.Cep18.Simulation.{Simulates}
use casper_contract_kit.Cep18.Arguments.{
  get_optional_named_arg_with_user_errors, get_named_arg_with_user_errors, get_named_arg_size,
  size_error, optional_error, named_arg_bytes, get_optional_named_arg_lem, optional_answer,
}
use casper_contract_kit.Cep18.Contract.{Setting, contract_store}
use casper_contract_kit.Cep18.Contract.View.{
  Layout, key_list, view, IsToken, see_same, same-IsToken,
}

-- A call that the host only traces.
abbrev OnlyTraces : {E A : Type 0} → Exec World ApiError E A → Type 0
OnlyTraces m = (w : World) → (m w).1 ≡ record w { env = record w.env { trace = (m w).1.env.trace } }

module _ {T : Type 0} (codec : Codec T) where
  optional_arg-OnlyTraces :
      (name : String) (invalid : Cep18Error)
      → OnlyTraces (get_optional_named_arg_with_user_errors codec name invalid)
  unfolding get_optional_named_arg_with_user_errors get_named_arg_with_user_errors
      get_named_arg_size size_error optional_error casper_get_named_arg_size casper_get_named_arg
      named_arg_bytes
  optional_arg-OnlyTraces name invalid w = elim (Option-cases (w.env.args name)) [
    | inl missing ↦ ground (arith, missing)
    | inr (arg, e) ↦ elim (Option-cases (codec.from_bytes arg)) [
      | inl bad ↦ ground (arith, e, bad)
      | inr (v, good) ↦ ground (arith, e, good)
    ]
  ]

module _ {L : Type 0} (setting : Setting L) (events : L → List (EventsMode × Event))
    (l : Layout) where
  open setting use {key_list_codec}

  key_list-outcome :
      (invalid : Cep18Error) (arg : Option Bytes) (t : Token)
      → (key_list_of invalid (key_list setting events l arg) t).0
        ≡ optional_answer key_list_codec invalid arg
  key_list-outcome invalid none t = refl
  key_list-outcome invalid (some arg) t = by_list (key_list_codec.from_bytes arg)
    where
      by_list :
          (o : Option (List Key))
          → (key_list_of invalid (elim o [ none ↦ malformed | some list ↦ keys list ]) t).0
            ≡ elim o [ none ↦ stop (reverted (to_api_error invalid)) | some list ↦ ok (some list) ]
      by_list none = refl
      by_list (some list) = refl

  key_list-state :
      (invalid : Cep18Error) (k : KeyList) (t : Token) → (key_list_of invalid k t).1 ≡ t
  key_list-state invalid absent t = refl
  key_list-state invalid malformed t = refl
  key_list-state invalid (keys list) t = refl

  pub key_list-sim :
      (name : String) (invalid : Cep18Error)
      → invalid ≢ phantom
      → Simulates
          (view setting events l)
          (IsToken setting events l)
          ((contract_store setting).optional_key_list name invalid)
          (token_store.optional_key_list name invalid)
  key_list-sim name invalid other = record {
    run = λ c t.
        let m = get_optional_named_arg_with_user_errors key_list_codec name invalid in
        let w = (m c.world).1 in
        let only = optional_arg-OnlyTraces key_list_codec name invalid c.world in
        let same : SameHost c.world.env w.env = record {
          address_generator = ap (λ v. v.env.address_generator) only;
          database = ap (λ v. v.env.database) only;
          args = ap (λ v. v.env.args) only;
          named_keys = ap (λ v. v.env.named_keys) only;
          host_buffer = ap (λ v. v.env.host_buffer) only;
          dictionaries = ap (λ v. v.env.dictionaries) only;
        } in
        let coherent =
          IsCoherent-after setting.host c.world w t.coherent same.named_keys
            (ap (λ v. v.cells) only) in
        record {
          outcome =
              get_optional_named_arg_lem key_list_codec name invalid c.world other
              ∙ sym (key_list-outcome invalid (c.world.env.args name) (view setting events l c));
          state =
              see_same setting events l c w same
              ∙ sym (
                  key_list-state invalid (key_list setting events l (c.world.env.args name))
                    (view setting events l c));
          valid = same-IsToken setting events l c w coherent same t;
        };
  }
