-- ===== src/Cep18/Contract/Reading.antt =====
-- What the entry points read from the storage of a contract is what they read from its token.
use casper_contract_kit.Base.{
  ℕ, ◌≤◌, ◌≡◌, ◌≢◌, refl, inr, Bytes, true, none, some, List, [], ◌∷◌, ◌++◌, length, Exec, ok,
  map_err, arith,
}
use casper_contract_kit.Casper.{Key, ApiError}
use casper_contract_kit.Casper.Codec.{Codec, Lossless}
use casper_contract_kit.Host.{Host, World, NamedKey, IsDocumented, IsCoherent}
use casper_contract_kit.Shim.{casper_read_host_buffer}
use casper_contract_kit.NamedKey.{read, get_dict}
use casper_contract_kit.NamedKey.Cache.{Reads}
use casper_contract_kit.NamedKey.Ops.{IsCoherent-after, get_dict-Reads, read-Reads}
use casper_contract_kit.Utils.{read_host_buffer}
use casper_contract_kit.Utils.Caller.{get_initiator_or_immediate, only_frame}
use casper_contract_kit.Utils.CallerLaws.{IsCalledBy}
use casper_contract_kit.Cep18.Event.{Event}
use casper_contract_kit.Cep18.Modalities.{EventsMode, ces, native, native_bytes}
use casper_contract_kit.Cep18.Simulation.{Agrees}
use casper_contract_kit.Cep18.Storage.{balance_item_key, allowance_item_key}
use casper_contract_kit.Cep18.Arguments.{get_immediate_caller, caller_key}
use casper_contract_kit.Cep18.Contract.{Setting, Contract, Payload, string, bytes, on_world}
use casper_contract_kit.Cep18.Contract.View.{
  Layout, AreApart, HasDictionary, HasValue, decoded, item, value, view, IsToken, see_same,
  same-IsToken,
}

-- What is documented of the setting: the host, the serializers, and the item keys, which fit and do
-- not collide; and that the event library and the host keep what they are given, in order.
pub record IsFaithful {L : Type 0} (setting : Setting L) (events : L → List (EventsMode × Event))
    (l : Layout) : Type 0 where
  pub documented : IsDocumented setting.host
  pub called : IsCalledBy setting.host l.caller
  pub apart : AreApart l
  pub u256_lossless : (n : ℕ) → Lossless setting.u256_codec n
  pub u8_lossless : (n : ℕ) → Lossless setting.u8_codec n
  pub balance_short :
      (k : Key)
      → length (balance_item_key setting.key_to_bytes setting.base64_encode k)
        ≤ setting.host.item_key_max
  pub allowance_short :
      (p : Key × Key)
      → length (allowance_item_key setting.key_to_bytes setting.blake2b setting.hex_encode p)
        ≤ setting.host.item_key_max
  pub balance_injective :
      (j k : Key)
      → balance_item_key setting.key_to_bytes setting.base64_encode j
        ≡ balance_item_key setting.key_to_bytes setting.base64_encode k
      → j ≡ k
  pub allowance_injective :
      (o s o' s' : Key)
      → allowance_item_key setting.key_to_bytes setting.blake2b setting.hex_encode (o, s)
        ≡ allowance_item_key setting.key_to_bytes setting.blake2b setting.hex_encode (o', s')
      → (o ≡ o') × (s ≡ s')
  pub logged : Payload → L → L
  pub message_lem : (p : Payload) (log : L) → setting.emit_message p log ≡ inr (logged p log)
  pub text_lem :
      (e : Event) (log : L)
      → events (logged (string (setting.to_json e)) log) ≡ events log ++ (native, e) ∷ []
  pub bytes_lem :
      (e : Event) (log : L)
      → events (logged (bytes (setting.to_json e)) log) ≡ events log ++ (native_bytes, e) ∷ []
  pub ces_lem :
      (e : Event) (log : L) → events (setting.ces_emit e log) ≡ events log ++ (ces, e) ∷ []
  pub message_schemas :
      (p : Payload) (log : L) → setting.has_events_dict (logged p log) ≡ setting.has_events_dict log
  pub ces_schemas :
      (e : Event) (log : L)
      → setting.has_events_dict (setting.ces_emit e log) ≡ setting.has_events_dict log
  pub init_events_lem : (log : L) → events (setting.ces_init log) ≡ events log
  pub init_schemas_lem : (log : L) → setting.has_events_dict (setting.ces_init log) ≡ true

module _ (host : Host) {E F A : Type 0} where
  pub Reads-map_err :
      (f : E → F) (m : Exec World ApiError E A) (w : World) {a : A}
      → Reads host w a (m w)
      → Reads host w a (map_err f m w)
  Reads-map_err f m w {a} r =
      rw (run) (record { value = refl; coherent = r.coherent; same = r.same })
    where
      run : map_err {X = ApiError} f m w ≡ (ok a, (m w).1)
      run = ground (arith, r.value)

module _ (host : Host) (a : ℕ) (called : IsCalledBy host a) (package_key : ℕ → Key) where
  caller_run :
      (w : World)
      → get_immediate_caller host package_key w
        ≡ (ok (Key.account a), record w { env = record w.env { host_buffer = none } })
  unfolding get_immediate_caller get_initiator_or_immediate only_frame caller_key read_host_buffer
      casper_read_host_buffer
  caller_run w =
      ground (arith, called.loads w.env, called.decodes, called.account, called.is_account)

  -- The account that calls is the caller of an entry point.
  pub get_immediate_caller-Reads :
      (w : World)
      → IsCoherent host w
      → w.env.host_buffer ≡ none
      → Reads host w (Key.account a) (get_immediate_caller host package_key w)
  get_immediate_caller-Reads w h emptied = rw (caller_run w) (record {
    value = refl;
    coherent = IsCoherent-after host w _ h refl refl;
    same = ground arith;
  })

module _ {L : Type 0} (setting : Setting L) (events : L → List (EventsMode × Event))
    (l : Layout) where
  -- A call that reads `a` from the storage agrees with one that reads it from the token.
  pub read-Agrees :
      {E A : Type 0} (m : Exec World ApiError E A) (a : A) (c : Contract L)
      → IsToken setting events l c
      → Reads setting.host c.world a (m c.world)
      → Agrees
          (view setting events l)
          (IsToken setting events l)
          (on_world m c)
          (ok a, view setting events l c)
  read-Agrees m a c t r = record {
    outcome = r.value;
    state = see_same setting events l c (m c.world).1 r.same;
    valid = same-IsToken setting events l c (m c.world).1 r.coherent r.same t;
  }

  module _ (faithful : IsFaithful setting events l) {T : Type 0} (codec : Codec T)
      (nk : NamedKey) where
    pub item-Reads :
        (seed : ℕ) (key : Bytes) (c : Contract L)
        → IsToken setting events l c
        → HasDictionary codec nk seed c.world
        → length key ≤ setting.host.item_key_max
        → Reads setting.host c.world
            (item codec seed key c.world.env.dictionaries)
            (get_dict setting.host codec nk key c.world)
    item-Reads seed key c t d short =
        let found : item codec seed key c.world.env.dictionaries ≡ decoded codec (d.content key) =
          rw d.opened refl in
        rw found (
          get_dict-Reads setting.host codec faithful.documented nk key c.world seed d.content
            (decoded codec (d.content key)) t.coherent d.name d.opened t.emptied short
            (d.whole key))

    pub value-Reads :
        (uref : ℕ) (c : Contract L)
        → IsToken setting events l c
        → HasValue codec nk uref c.world
        → (value codec uref c.world.env.database ≢ none)
          × Reads setting.host c.world
              (value codec uref c.world.env.database)
              (read setting.host codec nk c.world)
    value-Reads uref c t v =
        let found : value codec uref c.world.env.database ≡ some v.content =
          rw (v.stored, v.decodes) refl in
        rw found (
          (λ e. cc),
          read-Reads setting.host codec nk (Key.uref uref) c.world v.bytes v.content t.coherent
              v.name v.stored t.emptied v.decodes,
        )
