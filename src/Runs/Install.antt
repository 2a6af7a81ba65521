-- ===== src/Runs/Install.antt =====
-- Runs of what an installation does: a dictionary is made, and `init` is called.
use casper_contract_kit.Base.{
  some, ℕ, ◌≡◌, ◌≢◌, refl, none, [], false, String, ok, err, arith, pure, ◌∷◌, Bytes,
}
use casper_contract_kit.Casper.{Key, cl_value}
use casper_contract_kit.Shim.{HostFunction, record_call}
use casper_contract_kit.Host.{NamedKey, same_cell}
use casper_contract_kit.NamedKey.{from_name}
use casper_contract_kit.NamedKey.Create.{create, create_effect}
use casper_contract_kit.Collections.Open.{IsOpen}
use casper_contract_kit.Cep18.Error.{already_initialized}
use casper_contract_kit.Cep18.Contract.{Contract}
use casper_contract_kit.Cep18.Contract.Init.{Runtime, init, init_refused}
use casper_contract_kit.Cep18.Contract.Install.{Stored, append_all}
use casper_contract_kit.Cep18.Contract.Install.Values.{IsNew, append_all_effect}
use casper_contract_kit.Runs.Storage.{host, world, world-IsCoherent}
use casper_contract_kit.Runs.Contract.{Log, setting}

create_effect_example :
    ((create host (from_name "allowances") world).0 ≡ ok (from_name "allowances"))
    × IsOpen host
        (from_name "allowances")
        (λ _. none)
        (create host (from_name "allowances") world).1
    × ((create host (from_name "allowances") world).1.env.named_keys "allowances"
        ≡ some (Key.uref 1))
    × ((create host (from_name "allowances") world).1.env.database (Key.uref 1)
        ≡ some (cl_value []))
    × ((create host (from_name "allowances") world).1.env.address_generator ≡ 1)
    × ((create host (from_name "allowances") world).1.env.trace
        ≡ HostFunction.casper_get_key "allowances"
          ∷ HostFunction.casper_put_key "allowances" (Key.uref 1)
          ∷ [])
    × ((name : String)
        → "allowances" ≢ name
        → (create host (from_name "allowances") world).1.env.named_keys name
          ≡ world.env.named_keys name)
    × ((seed : ℕ)
        → seed ≢ 1
        → (create host (from_name "allowances") world).1.env.dictionaries seed
          ≡ world.env.dictionaries seed)
    × ((key : Key)
        → Key.uref 1 ≢ key
        → (create host (from_name "allowances") world).1.env.database key ≡ world.env.database key)
    × ((j : NamedKey)
        → same_cell (from_name "allowances") j ≡ false
        → (create host (from_name "allowances") world).1.cells j ≡ none)
    × ((create host (from_name "allowances") world).1.env.args ≡ world.env.args)
create_effect_example =
    create_effect host (from_name "allowances") world refl refl (omega arith) refl refl refl
      world-IsCoherent (λ j same. refl) (omega arith)

-- A contract that was never initialized: it has no allowances.
abbrev fresh : Contract Log
fresh = record { world = world; log = ([], false) }

abbrev runtime : Runtime Log
runtime = record {
  key_arg = λ name. pure (Key.hash 1);
  u256_arg = λ name. pure 100;
  put_key = λ name key. pure tt;
}

init_refused_example : init setting runtime fresh ≡ (
  err already_initialized,
  record fresh {
    world = record world { env = record_call (HostFunction.casper_get_key "allowances") world.env };
  },
)
init_refused_example = init_refused setting runtime fresh (λ key there. ground arith)

abbrev values : Stored
values = record {
  name = 65 ∷ [];
  symbol = 66 ∷ [];
  decimals = 9;
  total_supply = 100;
  events_mode = 2;
  enable_mint_burn = 1;
}

world-IsNew : IsNew world
world-IsNew = record {
  cells = λ nk. refl;
  name = refl;
  symbol = refl;
  decimals = refl;
  total_supply = refl;
  events_mode = refl;
  enable_mint_burn = refl;
}

append_all_effect_example :
    let r = append_all setting values world in
    let holds =
      λ (uref : ℕ) (bytes : Bytes). r.1.env.database (Key.uref uref) ≡ some (cl_value bytes) in
    (r.0
      ≡ ok (
          ("enable_mint_burn", Key.uref 6)
          ∷ ("events_mode", Key.uref 5)
          ∷ ("total_supply", Key.uref 4)
          ∷ ("decimals", Key.uref 3)
          ∷ ("symbol", Key.uref 2)
          ∷ ("name", Key.uref 1)
          ∷ []))
    × holds 1 (65 ∷ [])
    × holds 2 (66 ∷ [])
    × holds 3 (9 ∷ [])
    × holds 4 (100 ∷ [])
    × holds 5 (2 ∷ [])
    × holds 6 (1 ∷ [])
    × (r.1.env.address_generator ≡ 6)
append_all_effect_example = append_all_effect setting values world world-IsNew (omega arith)
