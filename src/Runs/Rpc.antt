-- ===== src/Runs/Rpc.antt =====
-- Runs of the JSON-RPC client, and of the dispatch of the in-memory host.
use casper_contract_kit.Base.{
  ℕ, ◌+◌, ◌≡◌, ◌↔◌, ◌⊎◌, refl, none, some, [], ◌∷◌, Bytes, ◌==◌, if◌then◌else◌, inl, inr, Outcome,
  ok,
}
use casper_contract_kit.Casper.{Key, ApiError}
use casper_contract_kit.Shim.{casper_put_key}
use casper_contract_kit.Shim.Dispatch.{
  Machine, new_builder, with_named_key, build, dispatch_with, with_current_env, on_env,
}
use casper_contract_kit.Shim.Dispatch.Scoped.{
  Code, done, call, dispatch, shared, IsStopped, run, scoped, dispatch_with-run,
}
use casper_contract_kit.JsonRpc.{pos, response_is_rpc_error, new, Node, get_balance}
use casper_contract_kit.JsonRpc.Balance.{IsMissing, get_balance-none_iff}

-- "Missing"
abbrev message : Bytes
message = 77 ∷ 105 ∷ 115 ∷ 115 ∷ 105 ∷ 110 ∷ 103 ∷ []

-- A node that has no account, and counts its calls.
abbrev empty_node : Node ℕ ℕ ℕ ℕ ℕ ℕ
empty_node = record {
  random = λ w. (pos w, w);
  get_account =
      λ id rpc_id endpoint verbosity w. (inl (response_is_rpc_error (pos 5) message), w + 1);
  main_purse = λ account. account;
  get_state_root_hash = λ id endpoint verbosity w. (inr (some 3), w + 1);
  get_balance = λ root purse id endpoint verbosity w. (inr 100, w + 1);
  put_transaction = λ transaction id endpoint verbosity w. (inr 0, w + 1);
  get_transaction = λ hash approvals id endpoint verbosity w. (inr 0, w + 1);
  get_chainspec = λ id endpoint verbosity w. (inr [], w + 1);
  speculative_exec_txn = λ transaction id endpoint verbosity w. (inr 0, w + 1);
  get_block = λ block id endpoint verbosity w. (inr 0, w + 1);
}

get_balance-none_iff_example :
    ((get_balance empty_node (new []) (1 ∷ []) 0).0 ≡ ok none)
    ↔ IsMissing empty_node (new []) (1 ∷ []) 0
get_balance-none_iff_example = get_balance-none_iff empty_node (new []) (1 ∷ []) 0

-- Two environments; the one that has an owner runs on top of an other.
abbrev machine : Machine
machine = record {
  envs = λ h.
      if h == 0
      then build new_builder
      else build (with_named_key "owner" (Key.account 7) new_builder);
  stack = 0 ∷ [];
  revert_error = none;
}

-- Code that stores a name, dispatches code that stores one in the other environment, and stores a
-- second name.
abbrev inner : Code
inner = call (casper_put_key "inner" (Key.uref 5)) (λ _. done)

abbrev outer : Code
outer =
    call (casper_put_key "before" (Key.uref 3))
      (λ _. dispatch 0 inner (call (casper_put_key "after" (Key.uref 4)) (λ _. done)))

abbrev from_status : ℕ → ApiError
from_status status = ApiError.unhandled

abbrev dispatched : Outcome ApiError ⊥ (Unit {0}) × Machine
dispatched = dispatch_with 1 (λ _. run from_status outer) machine

dispatch_with-run_example :
    (dispatched.0 ≡ (scoped from_status 1 outer (shared machine)).0)
    × (shared dispatched.1 ≡ (scoped from_status 1 outer (shared machine)).1)
    × ((dispatched.1.stack ≡ 0 ∷ []) ⊎ IsStopped dispatched.0)
dispatch_with-run_example = dispatch_with-run from_status 1 outer machine

dispatched_names :
    ((dispatched.1.envs 0).named_keys "inner" ≡ some (Key.uref 5))
    × ((dispatched.1.envs 1).named_keys "after" ≡ some (Key.uref 4))
    × ((dispatched.1.envs 0).named_keys "after" ≡ none)
unfolding run dispatch_with with_current_env on_env casper_put_key
dispatched_names = (refl, refl, refl)
