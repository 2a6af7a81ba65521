-- ===== src/NamedKey/Create.antt =====
-- named_key.rs: a named key that is made on a contract that does not have it.
use casper_contract_kit.Base.{
  ℕ, ◌+◌, ◌<◌, ◌≤◌, ◌^◌, ◌≡◌, ◌≢◌, refl, sym, ap, ◌∙◌, inl, inr, ◌⊎◌, String, Bool-cases, true,
  false, [], ◌∷◌, ◌++◌, Option, none, some, ok, ◌>>=◌, bind-run, pure, modify, arith,
}
use text.Mathlib.Text.{◌==◌ as str_eq}
use text.Mathlib.TextEquality.{eq_iff}
use casper_contract_kit.Casper.{Key, ApiError, cl_value}
use casper_contract_kit.Host.{
  Host, World, NamedKey, resolved, IsCoherent, Action, same_cell, set_cell,
}
use casper_contract_kit.Shim.{HostFunction, insert_name, record_call, casper_put_key}
use casper_contract_kit.Utils.{put_key, new_dictionary_key}
use casper_contract_kit.Utils.Laws.{get_key_eq}
use casper_contract_kit.Utils.Fresh.{with_dictionary, new_dictionary_key_eq}
use casper_contract_kit.Collections.Open.{IsOpen}
use casper_contract_kit.NamedKey.{
  get_or_init, put_to_named_keys, resolve_key, require_key, init_missing, keep_answer,
}

-- `get_or_init(new_dictionary_key).and_then(|named_key| named_key.put_to_named_keys())`
unfoldable pub create : Host → NamedKey → Action ApiError NamedKey
create host nk = get_or_init host nk (new_dictionary_key host) >>= put_to_named_keys host

-- The contract after the name was looked up, after a dictionary was made for it, and after the name
-- was given to it.
abbrev pub asked : NamedKey → World → World
asked nk w =
    set_cell nk (some (resolved none))
      (record w { env = record_call (HostFunction.casper_get_key nk.name) w.env })

abbrev opened : NamedKey → World → World
opened nk w =
    let addr = w.env.address_generator + 1 in
    set_cell nk (some (resolved (some (Key.uref addr))))
      (record (asked nk w) { env = with_dictionary addr (asked nk w).env })

abbrev pub created : NamedKey → World → World
created nk w =
    let key = Key.uref (w.env.address_generator + 1) in
    let called = record_call (HostFunction.casper_put_key nk.name key) (opened nk w).env in
    record (opened nk w) {
      env = record called { named_keys = insert_name nk.name key called.named_keys };
    }

pub resolve_cached :
    (host : Host) (nk : NamedKey) (key : Option Key) (w : World)
    → w.cells nk ≡ some (resolved key)
    → resolve_key host nk w ≡ (ok key, w)
unfolding resolve_key
resolve_cached host nk key w cached = rw cached refl

pub own_cell : (nk : NamedKey) → same_cell nk nk ≡ true
own_cell nk = ground (arith, eq_iff nk.name nk.name)

-- A name that nobody knows is looked up once.
pub resolve_new :
    (host : Host) (nk : NamedKey) (w : World)
    → w.cells nk ≡ none
    → w.env.named_keys nk.name ≡ none
    → resolve_key host nk w ≡ (ok none, asked nk w)
unfolding resolve_key
resolve_new host nk w empty missing =
    rw
      (
        empty,
        ap (keep_answer host nk)
            (get_key_eq host nk.name w (λ key found. cc (sym missing ∙ found))),
        missing,
      )
      refl

-- A key that is cached is given its name.
put_cached :
    (host : Host) (nk : NamedKey) (key : Key) (w : World)
    → w.cells nk ≡ some (resolved (some key))
    → put_to_named_keys host nk w ≡ (
      ok nk,
      record w {
        env = record (record_call (HostFunction.casper_put_key nk.name key) w.env) {
          named_keys = insert_name nk.name key w.env.named_keys;
        };
      },
    )
unfolding put_to_named_keys require_key put_key casper_put_key
put_cached host nk key w cached = ground (arith, resolve_cached host nk (some key) w cached)

module _ (host : Host) (nk : NamedKey) (w : World) (empty : w.cells nk ≡ none)
    (missing : w.env.named_keys nk.name ≡ none) (room : w.env.address_generator + 1 < 2 ^ 256)
    (new : w.env.dictionaries (w.env.address_generator + 1) ≡ none)
    (emptied : w.env.host_buffer ≡ none)
    (lossless : host.uref_from_bytes (host.uref_to_bytes (w.env.address_generator + 1))
      ≡ some (w.env.address_generator + 1)) where
  get_or_init_run : get_or_init host nk (new_dictionary_key host) w ≡ (ok nk, opened nk w)
  unfolding get_or_init
  get_or_init_run =
      bind-run (resolve_key host nk) (init_missing host nk (new_dictionary_key host)) w
        (resolve_new host nk w empty missing)
      ∙ bind-run (new_dictionary_key host)
          (λ key. modify (set_cell nk (some (resolved (some key)))) >>= λ _. pure nk) (asked nk w)
          (new_dictionary_key_eq host (asked nk w) room new emptied lossless)

  own_key : (opened nk w).cells nk ≡ some (resolved (some (Key.uref (w.env.address_generator + 1))))
  own_key = rw (own_cell nk) refl

  create_run : create host nk w ≡ (ok nk, created nk w)
  unfolding create
  create_run =
      bind-run (get_or_init host nk (new_dictionary_key host)) (put_to_named_keys host) w
        get_or_init_run
      ∙ put_cached host nk (Key.uref (w.env.address_generator + 1)) (opened nk w) own_key

  -- A name that neither the host nor a cell of the execution knows can be created, if the next address
  -- is in range and has no dictionary, the host's buffer is empty, and the address and its key are
  -- serialized as documented: afterwards the name leads to an empty dictionary at the next address,
  -- where the database has a unit, and the cells agree with the host. The address generator stands at
  -- that address, the trace has the lookup and the assignment of the name, and all else is as it was:
  -- every other name, dictionary and value of the database, every cell but that of the created name
  -- and copy, and the arguments.
  pub create_effect :
      IsCoherent host w
      → ((j : NamedKey) → j.name ≡ nk.name → w.cells j ≡ none)
      → host.key_size (Key.uref (w.env.address_generator + 1)) ≤ 64
      → ((create host nk w).0 ≡ ok nk)
        × IsOpen host nk (λ _. none) (create host nk w).1
        × ((create host nk w).1.env.named_keys nk.name
            ≡ some (Key.uref (w.env.address_generator + 1)))
        × ((create host nk w).1.env.database (Key.uref (w.env.address_generator + 1))
            ≡ some (cl_value []))
        × ((create host nk w).1.env.address_generator ≡ w.env.address_generator + 1)
        × ((create host nk w).1.env.trace
            ≡ (w.env.trace ++ (HostFunction.casper_get_key nk.name ∷ []))
              ++ (HostFunction.casper_put_key nk.name (Key.uref (w.env.address_generator + 1))
                  ∷ []))
        × ((name : String)
            → nk.name ≢ name
            → (create host nk w).1.env.named_keys name ≡ w.env.named_keys name)
        × ((seed : ℕ)
            → seed ≢ w.env.address_generator + 1
            → (create host nk w).1.env.dictionaries seed ≡ w.env.dictionaries seed)
        × ((key : Key)
            → Key.uref (w.env.address_generator + 1) ≢ key
            → (create host nk w).1.env.database key ≡ w.env.database key)
        × ((j : NamedKey) → same_cell nk j ≡ false → (create host nk w).1.cells j ≡ w.cells j)
        × ((create host nk w).1.env.args ≡ w.env.args)
  create_effect h unseen small = rw create_run (
    refl,
    record {
      seed = w.env.address_generator + 1;
      coherent = record { cells = cells; keys_fit = keys_fit };
      emptied = refl;
      name = ground (arith, eq_iff nk.name nk.name);
      content = ground arith;
    },
    ground (arith, eq_iff nk.name nk.name),
    ground arith,
    refl,
    refl,
    λ name other. ground (arith, eq_iff nk.name name),
    λ seed other. ground (arith, other),
    λ key other. ground (arith, other),
    λ j other. rw other refl,
    refl,
  )
    where
      cells :
          (j : NamedKey)
          → ((created nk w).cells j ≡ none)
            ⊎ ((created nk w).cells j ≡ some (resolved ((created nk w).env.named_keys j.name)))
      cells j = elim (Bool-cases (same_cell nk j)) [
        | inl same ↦ ground (arith, eq_iff nk.name j.name)
        | inr other ↦ elim (Bool-cases (str_eq nk.name j.name)) [
          | inl twin ↦ inl (ground (arith, other, twin, unseen j, eq_iff nk.name j.name))
          | inr apart ↦ elim (h.cells j) [
            | inl none_cached ↦ inl (ground (arith, other, apart, none_cached))
            | inr cached ↦ inr (ground (arith, other, apart, cached))
          ]
        ]
      ]

      keys_fit :
          (name : String) (key : Key)
          → (created nk w).env.named_keys name ≡ some key
          → host.key_size key ≤ 64
      keys_fit name key found = elim (Bool-cases (str_eq nk.name name)) [
        | inl same ↦ ground (arith, found, same, small)
        | inr other ↦ h.keys_fit name key (ground (arith, other))
      ]
