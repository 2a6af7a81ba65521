-- ===== src/Utils/Fresh.antt =====
-- utils.rs over the in-memory host: a dictionary that is made is empty, and stands at a new address.
use casper_contract_kit.Base.{
  ℕ, ◌+◌, ◌<◌, ◌^◌, ◌≡◌, refl, ◌∙◌, bind-run, modify, ◌>>◌, pure, none, some, [], length, ok, arith,
}
use casper_contract_kit.Casper.{Key, cl_value}
use casper_contract_kit.Host.{Host, World}
use casper_contract_kit.Shim.{
  Env, insert_value, insert_dictionary, next_address, open_dictionary, fill_host_buffer,
  casper_new_dictionary, casper_read_host_buffer,
}
use casper_contract_kit.Utils.{new_dictionary_key, new_dictionary_uref, read_host_buffer}

-- The host with one more dictionary, which is empty.
abbrev pub with_dictionary : ℕ → Env → Env
with_dictionary addr e = record e {
  address_generator = addr;
  database = insert_value (Key.uref addr) (cl_value []) e.database;
  dictionaries = insert_dictionary addr (λ _. none) e.dictionaries;
  host_buffer = none;
}

pub next_address_eq :
    (e : Env)
    → e.address_generator + 1 < 2 ^ 256
    → next_address e
      ≡ (ok (e.address_generator + 1), record e { address_generator = e.address_generator + 1 })
unfolding next_address
next_address_eq e room = ground (arith, room)

module _ (host : Host) (w : World) (room : w.env.address_generator + 1 < 2 ^ 256)
    (new : w.env.dictionaries (w.env.address_generator + 1) ≡ none)
    (emptied : w.env.host_buffer ≡ none) where
  abbrev addr : ℕ
  addr = w.env.address_generator + 1

  dictionary_eq : casper_new_dictionary host.uref_to_bytes w.env ≡ (
    ok (length (host.uref_to_bytes addr)),
    record (with_dictionary addr w.env) { host_buffer = some (host.uref_to_bytes addr) },
  )
  unfolding casper_new_dictionary open_dictionary fill_host_buffer
  dictionary_eq =
      let bytes = host.uref_to_bytes in
      bind-run next_address
        (λ addr.
          modify (open_dictionary bytes addr)
          >> (fill_host_buffer (bytes addr) >> pure (length (bytes addr))))
        w.env (next_address_eq w.env room)
      ∙ rw (new, emptied) refl

  pub new_dictionary_key_eq :
      host.uref_from_bytes (host.uref_to_bytes (w.env.address_generator + 1))
        ≡ some (w.env.address_generator + 1)
      → new_dictionary_key host w ≡ (
        ok (Key.uref (w.env.address_generator + 1)),
        record w { env = with_dictionary (w.env.address_generator + 1) w.env },
      )
  unfolding new_dictionary_key new_dictionary_uref read_host_buffer casper_read_host_buffer
  new_dictionary_key_eq lossless = ground (arith, dictionary_eq, lossless)
