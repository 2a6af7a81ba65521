-- ===== src/Runs/Tokens.antt =====
-- Runs of the token: transfers, allowances and the refinement.
use native.Mathlib.Decide.{ℕ_discrete}
use casper_contract_kit.Base.{◌+◌, ◌≤◌, ◌<◌, ◌≡◌, ◌≢◌, ◌↔◌, refl, some, ok, arith}
use casper_contract_kit.Casper.{Key-discrete}
use casper_contract_kit.Cep18.Modalities.{events_mode_try_from}
use casper_contract_kit.Cep18.Store.{u256_mod, checked_add, checked_sub}
use casper_contract_kit.Cep18.Methods.{transfer, transfer_balance}
use casper_contract_kit.Cep18.Token.{token_store}
use casper_contract_kit.Cep18.Transfers.{transfer_effect, transfer-succeeds_iff}
use casper_contract_kit.Runs.Sample.{alice, bob, carol, token}

-- Alice sends Bob 10 of her 70 tokens.
transfer_effect_example :
    (alice ≢ bob)
    × (10 ≤ 70)
    × ((transfer token_store bob 10 token).1.balance bob ≡ 40)
    × ((transfer token_store bob 10 token).1.allowance bob alice ≡ 25)
    × ((transfer token_store bob 10 token).1.total_supply ≡ some 100)
unfolding transfer transfer_balance checked_add checked_sub events_mode_try_from Key-discrete
    ℕ_discrete
transfer_effect_example = transfer_effect bob bob bob alice 10 token refl

transfer-succeeds_iff_example :
    ((transfer token_store carol 70 token).0 ≡ ok tt)
    ↔ ((alice ≢ carol) × (70 ≤ 70) × (0 + 70 < u256_mod))
unfolding Key-discrete ℕ_discrete
transfer-succeeds_iff_example = transfer-succeeds_iff carol 70 token (omega arith) (omega arith)
