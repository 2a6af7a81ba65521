-- ===== src/Runs/Executions.antt =====
-- A run of several executions of the contract, by two accounts.
use casper_contract_kit.Base.{◌≡◌, refl, bytes_eq, List, [], ◌∷◌, none, arith}
use casper_contract_kit.Casper.{Key, EntityAddr, Key-discrete}
use package.native.Mathlib.Decide.{ℕ_discrete}
use casper_contract_kit.Cep18.Sums.{sum, count}
use casper_contract_kit.Cep18.Storage.{balance_item_key}
use casper_contract_kit.Cep18.Contract.{Contract, contract_store}
use casper_contract_kit.Cep18.Contract.View.{view}
use casper_contract_kit.Cep18.Contract.Executions.{
  transfer, burn, run_call, begin_execution, IsBackedStorage, here, later, execution,
  StoredReachable-IsBackedStorage,
}
use casper_contract_kit.Runs.Storage.{host_of}
use casper_contract_kit.Runs.Contract.{
  Log, setting, kept, layout, contract, contract-IsToken, called_by-IsFaithful,
}

abbrev seven : Key
seven = Key.account 7

abbrev eight : Key
eight = Key.account 8

abbrev holders : List Key
holders = seven ∷ eight ∷ []

covers :
    (k : Key)
    → count k holders ≡ 0
    → (view
          (record setting { host = host_of 7 })
          kept
          (record layout { caller = 7 })
          contract).balance
        k
      ≡ 0
unfolding count bytes_eq balance_item_key Key-discrete ℕ_discrete
covers (Key.account a) h = ground arith
covers (Key.hash a) h = refl
covers (Key.uref a) h = refl
covers (Key.addressable_entity (EntityAddr.system a)) h = refl
covers (Key.addressable_entity (EntityAddr.account a)) h = refl
covers (Key.addressable_entity (EntityAddr.smart_contract a)) h = refl
covers (Key.smart_contract a) h = refl
covers (Key.balance a) h = refl
covers (Key.other a) h = refl

contract-IsBackedStorage : IsBackedStorage setting host_of kept layout holders contract
unfolding sum count bytes_eq balance_item_key Key-discrete ℕ_discrete
contract-IsBackedStorage = record {
  account = 7;
  stands = contract-IsToken;
  backed = record {
    once = λ k. ground arith;
    covers = covers;
    is_sum = refl;
    bound = ground arith;
  };
}

eight_listed : count eight holders ≡ 1
unfolding count Key-discrete ℕ_discrete
eight_listed = refl

-- The account 7 sends tokens to the account 8, which burns some of them.
abbrev sent : Contract Log
sent =
    (run_call (contract_store (record setting { host = host_of 7 })) (transfer eight 20)
      (begin_execution (λ _. none) contract)).1

abbrev burnt : Contract Log
burnt =
    (run_call (contract_store (record setting { host = host_of 8 })) (burn eight 5)
      (begin_execution (λ _. none) sent)).1

StoredReachable-IsBackedStorage_example : IsBackedStorage setting host_of kept layout holders burnt
StoredReachable-IsBackedStorage_example =
    StoredReachable-IsBackedStorage setting host_of kept layout holders called_by-IsFaithful
      (λ a b k. refl) contract burnt contract-IsBackedStorage
      (later (later here (execution contract 7 (λ _. none) (transfer eight 20) eight_listed))
        (execution sent 8 (λ _. none) (burn eight 5) eight_listed))
