-- ===== src/Cep18/Contract/Events.antt =====
-- What events.rs does on the storage of a contract is what it does on its token.
use casper_contract_kit.Base.{
  ◌≡◌, refl, sym, inl, inr, Bool-cases, some, List, [], ◌∷◌, ◌++◌, Exec, ok, map_err,
  unwrap_or_revert, bind-run, subst, arith, ◌>>=◌, ok_or, some_or_revert, revert,
}
use casper_contract_kit.Casper.{ApiError}
use casper_contract_kit.Host.{World}
use casper_contract_kit.NamedKey.{read}
use casper_contract_kit.Cep18.Error.{Cep18Error, to_api_error, invalid_events_mode}
use casper_contract_kit.Cep18.Event.{Event}
use casper_contract_kit.Cep18.Store.{Entry}
use casper_contract_kit.Cep18.Modalities.{
  EventsMode, TryFrom, events_mode_try_from, no_events, ces, native, native_bytes,
}
use casper_contract_kit.Cep18.Token.{Token, token_store, emit, with_mode, init_schemas}
use casper_contract_kit.Cep18.Simulation.{Agrees, Simulates}
use casper_contract_kit.Cep18.Contract.{
  Setting, Contract, Payload, string, bytes, on_world, contract_store, record_event_dictionary,
  init_events, init_if_ces, emit_as, send, mode_or_revert, events_mode_key,
}
use casper_contract_kit.Cep18.Contract.View.{Layout, view, IsToken, see_same, same-IsToken}
use casper_contract_kit.Cep18.Contract.Reading.{IsFaithful}
use casper_contract_kit.Cep18.Contract.Accessors.{mode-Reads}

module _ {L : Type 0} (setting : Setting L) (events : L → List (EventsMode × Event)) (l : Layout)
    (faithful : IsFaithful setting events l) where
  open setting use {host, u8_codec, to_json, ces_emit, ces_init, has_events_dict, key_list_codec}

  abbrev see_token : Contract L → Token
  see_token = view setting events l

  abbrev Valid : Contract L → Type 0
  Valid = IsToken setting events l

  -- What is kept of events does not change the storage.
  logged-IsToken : (c : Contract L) (log : L) → Valid c → Valid (record c { log = log })
  logged-IsToken c log t = record {
    coherent = t.coherent;
    emptied = t.emptied;
    balances = t.balances;
    allowances = t.allowances;
    badges = t.badges;
    supply = t.supply;
    mint_burn = t.mint_burn;
    mode = t.mode;
  }

  -- A message that is kept as an event under a mode.
  send-Agrees :
      (mode : EventsMode) (payload : Payload) (e : Event) (c : Contract L)
      → events (faithful.logged payload c.log) ≡ events c.log ++ (mode, e) ∷ []
      → Valid c
      → Agrees see_token Valid
          (send setting payload c)
          (ok tt, record (see_token c) { events = events c.log ++ (mode, e) ∷ [] })
  unfolding send
  send-Agrees mode payload e c kept t = rw (sent) (record {
    outcome = refl;
    state = λ i. record (see_token c) {
      has_schemas = faithful.message_schemas payload c.log i;
      events = kept i;
    };
    valid = logged-IsToken c (faithful.logged payload c.log) t;
  })
    where
      sent : send setting payload c ≡ (ok tt, record c { log = faithful.logged payload c.log })
      sent = ground (arith, faithful.message_lem payload c.log)

  emit-Agrees :
      (e : Event) (mode : EventsMode) (c : Contract L)
      → Valid c
      → Agrees see_token Valid (emit_as setting mode e c) (emit mode e (see_token c))
  unfolding emit_as
  emit-Agrees e no_events c t = record { outcome = refl; state = refl; valid = t }
  emit-Agrees e ces c t = record {
    outcome = refl;
    state = λ i. record (see_token c) {
      has_schemas = faithful.ces_schemas e c.log i;
      events = faithful.ces_lem e c.log i;
    };
    valid = logged-IsToken c (ces_emit e c.log) t;
  }
  emit-Agrees e native c t =
      send-Agrees native (string (to_json e)) e c (faithful.text_lem e c.log) t
  emit-Agrees e native_bytes c t =
      send-Agrees native_bytes (bytes (to_json e)) e c (faithful.bytes_lem e c.log) t

  init-Agrees :
      (mode : EventsMode) (c : Contract L)
      → Valid c
      → Agrees see_token Valid (init_if_ces setting mode c) (init_schemas mode (see_token c))
  unfolding init_if_ces
  init-Agrees no_events c t = record { outcome = refl; state = refl; valid = t }
  init-Agrees native c t = record { outcome = refl; state = refl; valid = t }
  init-Agrees native_bytes c t = record { outcome = refl; state = refl; valid = t }
  init-Agrees ces c t = elim (Bool-cases (has_events_dict c.log)) [
    | inl there ↦ rw there (record {
      outcome = refl;
      state = λ i. record (see_token c) { has_schemas = there i };
      valid = t;
    })
    | inr missing ↦ rw missing (record {
      outcome = refl;
      state = λ i. record (see_token c) {
        has_schemas = faithful.init_schemas_lem c.log i;
        events = faithful.init_events_lem c.log i;
      };
      valid = logged-IsToken c (ces_init c.log) t;
    })
  ]

  -- An act under the stored mode, after the read, and the same act on the token.
  module _ (act : EventsMode → Entry (Contract L) (Unit {0}))
      (token_act : EventsMode → Entry Token (Unit {0}))
      (agree : (mode : EventsMode) (c : Contract L)
        → Valid c
        → Agrees see_token Valid (act mode c) (token_act mode (see_token c))) where
    moded :
        (r : TryFrom EventsMode) (c : Contract L)
        → Valid c
        → Agrees see_token Valid ((mode_or_revert setting r >>= act) c) (elim r [
          | TryFrom.ok mode ↦ token_act mode (see_token c)
          | TryFrom.err e ↦ revert (to_api_error invalid_events_mode) (see_token c)
        ])
    moded (TryFrom.ok mode) c t = agree mode c t
    moded (TryFrom.err e) c t = record { outcome = refl; state = refl; valid = t }

    abbrev after_read : Contract L → Contract L
    after_read c = record c { world = (read host u8_codec events_mode_key c.world).1 }

    with_mode-Agrees :
        (c : Contract L)
        → Valid c
        → Agrees see_token Valid
            ((mode_or_revert setting (events_mode_try_from (see_token c).events_mode) >>= act)
              (after_read c))
            (with_mode token_act (see_token c))
    with_mode-Agrees c t =
        let r = mode-Reads setting events l faithful c t in
        let w = (read host u8_codec events_mode_key c.world).1 in
        let same = see_same setting events l c w r.same in
        subst
          (λ x.
            Agrees see_token Valid
              ((mode_or_revert setting (events_mode_try_from x.events_mode) >>= act) (after_read c))
              (with_mode token_act x))
          same
          (moded (events_mode_try_from (see_token (after_read c)).events_mode) (after_read c)
            (same-IsToken setting events l c w r.coherent r.same t))

  -- A read that ends well, with its error turned into a revert or into another one.
  reverting-run :
      {A : Type 0} (f : ApiError → ApiError) (m : Exec World ApiError ApiError A) (c : Contract L)
      (a : A)
      → (m c.world).0 ≡ ok a
      → unwrap_or_revert {F = Cep18Error} f (on_world m) c
        ≡ (ok a, record c { world = (m c.world).1 })
  reverting-run f m c a e = ground (arith, e)

  mapped-run :
      {A : Type 0} (f : ApiError → Cep18Error) (m : Exec World ApiError ApiError A) (c : Contract L)
      (a : A)
      → (m c.world).0 ≡ ok a
      → map_err f (on_world m) c ≡ (ok a, record c { world = (m c.world).1 })
  mapped-run f m c a e = ground (arith, e)

  pub record_event-sim :
      (e : Event)
      → Simulates see_token Valid
          ((contract_store setting).record_event_dictionary e)
          (token_store.record_event_dictionary e)
  unfolding record_event_dictionary
  record_event-sim e = record {
    run = λ c t.
        let r = mode-Reads setting events l faithful c t in
        subst (λ p. Agrees see_token Valid p (token_store.record_event_dictionary e (see_token c)))
          (sym (
            bind-run
              (unwrap_or_revert (λ _. to_api_error invalid_events_mode)
                (on_world (read host u8_codec events_mode_key)))
              (λ stored. some_or_revert stored (to_api_error invalid_events_mode) >>= λ raw.
                mode_or_revert setting (events_mode_try_from raw) >>= λ mode.
                emit_as setting mode e)
              c
              (reverting-run (λ _. to_api_error invalid_events_mode)
                (read host u8_codec events_mode_key) c (some (see_token c).events_mode) r.value)))
          (with_mode-Agrees (λ mode. emit_as setting mode e) (λ mode. emit mode e) (emit-Agrees e) c
            t);
  }

  pub init_events-sim :
      Simulates see_token Valid (contract_store setting).init_events token_store.init_events
  unfolding init_events
  init_events-sim = record {
    run = λ c t.
        let r = mode-Reads setting events l faithful c t in
        subst (λ p. Agrees see_token Valid p (token_store.init_events (see_token c)))
          (sym (
            bind-run
              (map_err (λ _. invalid_events_mode) (on_world (read host u8_codec events_mode_key)))
              (λ stored. ok_or stored invalid_events_mode >>= λ raw.
                mode_or_revert setting (events_mode_try_from raw) >>= init_if_ces setting)
              c
              (mapped-run (λ _. invalid_events_mode) (read host u8_codec events_mode_key) c
                (some (see_token c).events_mode) r.value)))
          (with_mode-Agrees (init_if_ces setting) init_schemas init-Agrees c t);
  }
