-- ===== src/Runs/Contract.antt =====
-- A run of the token over the storage of a contract.
use text.Mathlib.Text.{◌==◌ as str_eq}
use casper_contract_kit.Base.{
  ℕ, ◌≡◌, refl, sym, ap, ◌∙◌, inl, inr, Bytes, bytes_eq, Bool, Bool-cases, true, false, none, some,
  List, [], ◌∷◌, ◌++◌, ◌⊎◌, ◌==◌, if◌then◌else◌, arith,
}
use casper_contract_kit.Casper.{ApiError, Key, key_eq, cl_value, Key-discrete}
use package.native.Mathlib.Decide.{ℕ_discrete}
use casper_contract_kit.Casper.Codec.{Codec}
use casper_contract_kit.Shim.{Dictionary, insert_item}
use casper_contract_kit.NamedKey.Ops.{Holds}
use casper_contract_kit.Cep18.Badge.{minter}
use casper_contract_kit.Cep18.Event.{Event}
use casper_contract_kit.Cep18.Store.{Entry}
use casper_contract_kit.Cep18.Modalities.{EventsMode, native, native_bytes, ces}
use casper_contract_kit.Cep18.Methods.{
  transfer_balance, approve, increase_allowance, decrease_allowance, transfer, transfer_from, mint,
  burn, change_sec_badge, change_security, change_events_mode,
}
use casper_contract_kit.Cep18.Token.{Token, token_store}
use casper_contract_kit.Cep18.Simulation.{Agrees}
use casper_contract_kit.Cep18.Storage.{balance_item_key, allowance_item_key}
use casper_contract_kit.Cep18.Contract.{Setting, Contract, Payload, string, contract_store}
use casper_contract_kit.Cep18.Contract.View.{Layout, AreApart, decoded, view, IsToken}
use casper_contract_kit.Cep18.Contract.Reading.{IsFaithful}
use casper_contract_kit.Cep18.Contract.Faithful.{contract_refines}
use casper_contract_kit.Runs.Storage.{
  byte_codec, host, host_of, host_of-IsDocumented, host_of-IsCalledBy,
}
use casper_contract_kit.Runs.Sample.{alice, bob}
use casper_contract_kit.Runs.Json.{key_bytes, key_at, key_of_lem, to_json, event_of, event_of_lem}

-- What is kept of events: the events, and whether the schemas are there.
abbrev pub Log : Type 0
Log = List (EventsMode × Event) × Bool

abbrev pub kept : Log → List (EventsMode × Event)
kept log = log.0

abbrev add : EventsMode → Event → Log → Log
add mode e log = (log.0 ++ (mode, e) ∷ [], log.1)

abbrev logged : Payload → Log → Log
logged (string b) log = add native (event_of b) log
logged (Payload.bytes b) log = add native_bytes (event_of b) log

abbrev no_lists : Codec (List Key)
no_lists = record {
  to_bytes = λ list. [];
  from_bytes = λ bytes. none;
  refusal = λ bytes. ApiError.formatting;
}

abbrev bytes_codec : Codec Bytes
bytes_codec = record {
  to_bytes = λ b. b;
  from_bytes = λ b. some b;
  refusal = λ bytes. ApiError.formatting;
}

abbrev pub setting : Setting Log
setting = record {
  host = host;
  package_key = Key.hash;
  u256_codec = byte_codec;
  u8_codec = byte_codec;
  string_codec = bytes_codec;
  key_list_codec = no_lists;
  key_to_bytes = key_bytes;
  base64_encode = λ b. b;
  blake2b = λ b. b;
  hex_encode = λ b. b;
  to_json = to_json;
  ces_emit = add ces;
  ces_init = λ log. (log.0, true);
  has_events_dict = λ log. log.1;
  emit_message = λ payload log. inr (logged payload log);
}

abbrev pub layout : Layout
layout = record {
  caller = 7;
  balances = 1;
  allowances = 2;
  badges = 3;
  supply = 4;
  mint_burn = 5;
  mode = 6;
}

-- The settings and the layout when an account calls.
pub called_by-IsFaithful :
    (a : ℕ) → IsFaithful (record setting { host = host_of a }) kept (record layout { caller = a })
unfolding balance_item_key allowance_item_key
called_by-IsFaithful a = record {
  documented = host_of-IsDocumented a;
  called = host_of-IsCalledBy a;
  apart = apart;
  u256_lossless = λ n. refl;
  u8_lossless = λ n. refl;
  balance_short = λ k. omega arith;
  allowance_short = λ p. omega arith;
  balance_injective = λ j k e. sym (key_of_lem j) ∙ ap key_at e ∙ key_of_lem k;
  allowance_injective = λ o s o' s' e. (
    sym (key_of_lem o) ∙ ap key_at e ∙ key_of_lem o',
    sym (key_of_lem s) ∙ ap (λ b. key_at (drop_two b)) e ∙ key_of_lem s',
  );
  logged = logged;
  message_lem = λ p log. refl;
  text_lem = λ e log. rw (event_of_lem e) refl;
  bytes_lem = λ e log. rw (event_of_lem e) refl;
  ces_lem = λ e log. refl;
  message_schemas = message_schemas;
  ces_schemas = λ e log. refl;
  init_events_lem = λ log. refl;
  init_schemas_lem = λ log. refl;
}
  where
    apart : AreApart (record layout { caller = a })
    apart = record {
      balances_allowances = λ e. omega arith;
      balances_badges = λ e. omega arith;
      allowances_badges = λ e. omega arith;
      supply_mint_burn = λ e. omega arith;
      supply_mode = λ e. omega arith;
      mint_burn_mode = λ e. omega arith;
    }

    drop_two : Bytes → Bytes
    drop_two [] = []
    drop_two (a ∷ []) = []
    drop_two (a ∷ b ∷ rest) = rest

    message_schemas : (p : Payload) (log : Log) → (logged p log).1 ≡ log.1
    message_schemas (string b) log = refl
    message_schemas (Payload.bytes b) log = refl

setting-IsFaithful : IsFaithful setting kept layout
setting-IsFaithful = called_by-IsFaithful 7

-- The account 7 holds all 70 tokens, and is no admin.
abbrev balances : Dictionary
balances = insert_item (key_bytes (Key.account 7)) (70 ∷ []) (λ _. none)

abbrev pub contract : Contract Log
contract = record {
  world = record {
    env = record {
      address_generator = 9;
      database = λ k.
          if key_eq k (Key.uref 4)
          then some (cl_value (70 ∷ []))
          else if key_eq k (Key.uref 5)
          then some (cl_value (1 ∷ []))
          else if key_eq k (Key.uref 6)
          then some (cl_value (2 ∷ []))
          else none;
      args = λ name. none;
      named_keys = λ name.
          if str_eq name "balances"
          then some (Key.uref 1)
          else if str_eq name "allowances"
          then some (Key.uref 2)
          else if str_eq name "security_badges"
          then some (Key.uref 3)
          else if str_eq name "total_supply"
          then some (Key.uref 4)
          else if str_eq name "enable_mint_burn"
          then some (Key.uref 5)
          else if str_eq name "events_mode"
          then some (Key.uref 6)
          else none;
      host_buffer = none;
      dictionaries = λ seed.
          if seed == 1
          then some balances
          else if seed == 2
          then some (λ _. none)
          else if seed == 3
          then some (λ _. none)
          else none;
      trace = [];
    };
    cells = λ nk. none;
  };
  log = ([], false);
}

pub contract-IsToken : IsToken setting kept layout contract
unfolding Key-discrete ℕ_discrete
contract-IsToken = record {
  coherent = record { cells = λ nk. inl refl; keys_fit = λ name key h. ground arith };
  emptied = refl;
  balances = record {
    name = refl;
    content = balances;
    opened = refl;
    whole = λ j. whole j (Bool-cases (bytes_eq (key_bytes (Key.account 7)) j));
  };
  allowances = record { name = refl; content = λ _. none; opened = refl; whole = λ j. refl };
  badges = record { name = refl; content = λ _. none; opened = refl; whole = λ j. refl };
  supply = record { name = refl; bytes = 70 ∷ []; stored = refl; content = 70; decodes = refl };
  mint_burn = record { name = refl; bytes = 1 ∷ []; stored = refl; content = 1; decodes = refl };
  mode = record { name = refl; bytes = 2 ∷ []; stored = refl; content = 2; decodes = refl };
}
  where
    whole :
        (j : Bytes)
        → (bytes_eq (key_bytes (Key.account 7)) j ≡ true)
          ⊎ (bytes_eq (key_bytes (Key.account 7)) j ≡ false)
        → Holds byte_codec (balances j) (decoded byte_codec (balances j))
    whole j (inl same) = rw same (refl, λ e. cc)
    whole j (inr other) = rw other refl

-- An entry point on the contract, and on its token.
abbrev Ends : {A : Type 0} → Entry (Contract Log) A → Entry Token A → Type 0
Ends m n =
    Agrees (view setting kept layout) (IsToken setting kept layout) (m contract)
      (n (view setting kept layout contract))

contract_refines_example :
    Ends
      (transfer_balance (contract_store setting) alice bob 5)
      (transfer_balance token_store alice bob 5)
    × Ends (approve (contract_store setting) alice 5) (approve token_store alice 5)
    × Ends
        (increase_allowance (contract_store setting) alice 5)
        (increase_allowance token_store alice 5)
    × Ends
        (decrease_allowance (contract_store setting) alice 5)
        (decrease_allowance token_store alice 5)
    × Ends (transfer (contract_store setting) bob 5) (transfer token_store bob 5)
    × Ends
        (transfer_from (contract_store setting) alice bob 5)
        (transfer_from token_store alice bob 5)
    × Ends (mint (contract_store setting) alice 5) (mint token_store alice 5)
    × Ends (burn (contract_store setting) alice 5) (burn token_store alice 5)
    × Ends
        (change_sec_badge (contract_store setting) ((bob, minter) ∷ []))
        (change_sec_badge token_store ((bob, minter) ∷ []))
    × Ends (change_security (contract_store setting)) (change_security token_store)
    × Ends (change_events_mode (contract_store setting) 5) (change_events_mode token_store 5)
contract_refines_example =
    contract_refines setting kept layout setting-IsFaithful contract contract-IsToken alice bob 5
      ((bob, minter) ∷ [])
