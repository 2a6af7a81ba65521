-- ===== src/NamedKey/Values.antt =====
-- named_key.rs: values that are stored under new URefs for the named keys of a new contract, as the
-- installation of the token does it.
use casper_contract_kit.Base.{
  ◌+◌, ◌<◌, ◌^◌, ◌≡◌, refl, ◌∙◌, String, Bytes, none, some, List, ◌∷◌, ok, ◌>>=◌, ◌>>◌, pure,
  modify, bind-run, arith,
}
use casper_contract_kit.Casper.{Key, ApiError, cl_value}
use casper_contract_kit.Casper.Codec.{Codec}
use casper_contract_kit.Host.{Host, World, NamedKey, resolved, Action, set_cell}
use casper_contract_kit.Shim.{
  Env, HostFunction, insert_value, record_call, next_address, casper_new_uref,
}
use casper_contract_kit.Utils.{new_uref_key}
use casper_contract_kit.Utils.Fresh.{next_address_eq}
use casper_contract_kit.NamedKey.{
  get_or_init, append_to_named_keys, resolve_key, require_key, init_missing,
}
use casper_contract_kit.NamedKey.Create.{asked, resolve_new, resolve_cached, own_cell}

-- `nk.get_or_init(|| new_uref_key(value)).and_then(|nk| nk.append_to_named_keys(&mut named_keys))`
unfoldable pub append_value :
    {T : Type 0}
    → Host
    → Codec T
    → NamedKey
    → T
    → List (String × Key)
    → Action ApiError (List (String × Key))
append_value host codec nk value named_keys =
    get_or_init host nk (new_uref_key host codec value) >>= λ nk.
    append_to_named_keys host nk named_keys

-- The host with one more URef, which holds a value.
abbrev pub with_uref : Bytes → Env → Env
with_uref bytes e =
    let addr = e.address_generator + 1 in
    record e {
      address_generator = addr;
      database = insert_value (Key.uref addr) (cl_value bytes) e.database;
    }

-- The contract after the value was stored.
abbrev pub stored : NamedKey → Bytes → World → World
stored nk bytes w =
    let key = Key.uref (w.env.address_generator + 1) in
    set_cell nk (some (resolved (some key))) (record (asked nk w) {
      env = with_uref bytes (record_call HostFunction.casper_new_uref (asked nk w).env);
    })

module _ {T : Type 0} (host : Host) (codec : Codec T) (value : T) (w : World)
    (room : w.env.address_generator + 1 < 2 ^ 256) where
  uref_eq : casper_new_uref (codec.to_bytes value) w.env ≡ (
    ok (w.env.address_generator + 1),
    with_uref (codec.to_bytes value) (record_call HostFunction.casper_new_uref w.env),
  )
  unfolding casper_new_uref
  uref_eq =
      let called = record_call HostFunction.casper_new_uref w.env in
      bind-run next_address
        (λ addr.
          modify (λ e. record e {
            database = insert_value (Key.uref addr) (cl_value (codec.to_bytes value)) e.database;
          })
          >> pure addr)
        called (next_address_eq called room)

  new_uref_key_run : new_uref_key host codec value w ≡ (
    ok (Key.uref (w.env.address_generator + 1)),
    record w {
      env = with_uref (codec.to_bytes value) (record_call HostFunction.casper_new_uref w.env);
    },
  )
  unfolding new_uref_key
  new_uref_key_run = ground (arith, uref_eq)

module _ {T : Type 0} (host : Host) (codec : Codec T) (value : T) (w : World)
    (room : w.env.address_generator + 1 < 2 ^ 256) where
  module _ (nk : NamedKey) (named_keys : List (String × Key)) (empty : w.cells nk ≡ none)
      (missing : w.env.named_keys nk.name ≡ none) where
    abbrev key : Key
    key = Key.uref (w.env.address_generator + 1)

    own_key : (stored nk (codec.to_bytes value) w).cells nk ≡ some (resolved (some key))
    own_key = rw (own_cell nk) refl

    pub append_value_run : append_value host codec nk value named_keys w ≡ (
      ok ((nk.name, Key.uref (w.env.address_generator + 1)) ∷ named_keys),
      stored nk (codec.to_bytes value) w,
    )
    unfolding append_value get_or_init append_to_named_keys require_key
    append_value_run =
        let made =
          bind-run (resolve_key host nk) (init_missing host nk (new_uref_key host codec value)) w
            (resolve_new host nk w empty missing)
          ∙ bind-run (new_uref_key host codec value)
              (λ key. modify (set_cell nk (some (resolved (some key)))) >>= λ _. pure nk)
              (asked nk w) (new_uref_key_run host codec value (asked nk w) room) in
        let found =
          resolve_cached host nk (some key) (stored nk (codec.to_bytes value) w) own_key in
        bind-run (get_or_init host nk (new_uref_key host codec value))
          (λ nk. append_to_named_keys host nk named_keys) w made
        ∙ ground (arith, found)
