-- ===== src/Runs/Sample.antt =====
-- The states of the runs: a token with three accounts, and a host with a dictionary, a flag and an
-- owner.
use casper_contract_kit.Base.{ℕ, refl, ◌&&◌, false, none, some, List, [], ◌∷◌, if◌then◌else◌, arith}
use native.Mathlib.Decide.{ℕ_discrete}
use text.Mathlib.Text.{◌==◌ as str_eq}
use casper_contract_kit.Casper.{Key, Key-discrete, key_eq}
use casper_contract_kit.Cep18.Badge.{admin}
use casper_contract_kit.Cep18.Token.{Token, absent, keys, set_balance}
use casper_contract_kit.Cep18.Sums.{sum, count}
use casper_contract_kit.Cep18.Backed.{IsBacked}

abbrev pub alice : Key
alice = Key.account 1

abbrev pub bob : Key
bob = Key.account 2

abbrev pub carol : Key
carol = Key.hash 3

abbrev pub holders : List Key
holders = alice ∷ bob ∷ carol ∷ []

abbrev pub balances : Key → ℕ
balances = set_balance alice 70 (set_balance bob 30 (λ _. 0))

-- Alice is the admin and calls, with Bob as the minter that `change_security` is asked for; Bob may
-- spend 20 of Alice's tokens and Alice 25 of Bob's.
abbrev pub token : Token
token = record {
  caller = alice;
  balance = balances;
  allowance = λ o s. if key_eq o bob && key_eq s alice then 25 else 0;
  total_supply = some 100;
  enable_mint_burn = some 1;
  events_mode = 2;
  badge = λ k. if key_eq k alice then some admin else none;
  key_lists = λ name. if str_eq name "minter_list" then keys (bob ∷ alice ∷ []) else absent;
  has_schemas = false;
  events = [];
}

pub token-IsBacked : IsBacked holders token
unfolding sum count Key-discrete ℕ_discrete
token-IsBacked = record {
  once = λ k. ground arith;
  covers = λ k h. ground arith;
  is_sum = refl;
  bound = ground arith;
}
