-- ===== src/Runs/Supply.antt =====
-- Runs of the token: supply, access rights and executions.
use native.Mathlib.Decide.{ℕ_discrete}
use casper_contract_kit.Base.{
  ◌+◌, ◌≤◌, ◌<◌, ◌≡◌, ◌≢◌, ◌↔◌, ◌⊎◌, refl, some, [], ◌∷◌, unwrap_or, ok, err, arith,
}
use casper_contract_kit.Casper.{Key-discrete}
use casper_contract_kit.Cep18.Error.{
  overflow, insufficient_balance, failed_to_change_total_supply, mint_burn_disabled,
  insufficient_rights,
}
use casper_contract_kit.Cep18.Badge.{
  SecurityBadge, admin, minter, contains, from_bytes, to_bytes, from_bytes_drops_rest,
}
use casper_contract_kit.Cep18.Badge
use casper_contract_kit.Cep18.Modalities.{events_mode_try_from}
use casper_contract_kit.Cep18.Store.{u256_mod, checked_add, checked_sub}
use casper_contract_kit.Cep18.Methods.{
  ensure_mint_burn_enabled, sec_check, current_total_supply, transfer, mint, burn, map_insert,
  map_remove, insert_all, change_sec_badge, change_security, change_events_mode,
}
use casper_contract_kit.Cep18.Token.{Token, token_store}
use casper_contract_kit.Cep18.Supply.{
  MayMintBurn, LacksBadge, mint_effect, burn_effect, mint_answers, burn_answers,
}
use casper_contract_kit.Cep18.Sums.{count}
use casper_contract_kit.Cep18.Backed.{IsBacked, backed_never_fails}
use casper_contract_kit.Cep18.BadgeMap.{member}
use casper_contract_kit.Cep18.Access.{change_security_effect, change_events_mode_effect}
use casper_contract_kit.Cep18.Reachable.{here, later, transfer_call, burn_call, Reachable-IsBacked}
use casper_contract_kit.Runs.Sample.{alice, bob, carol, holders, token, token-IsBacked}

mint_effect_example :
    ((unwrap_or 0 token.enable_mint_burn ≢ 0)
      × ((some admin ≡ some admin) ⊎ (some admin ≡ some minter)))
    × (100 + 5 < u256_mod)
    × (0 + 5 < u256_mod)
    × ((mint token_store carol 5 token).1.total_supply ≡ some 105)
    × ((mint token_store carol 5 token).1.balance carol ≡ 5)
    × ((mint token_store carol 5 token).1.allowance bob alice ≡ 25)
unfolding mint ensure_mint_burn_enabled sec_check contains current_total_supply checked_add
    events_mode_try_from Key-discrete ℕ_discrete
mint_effect_example = mint_effect carol carol bob alice 5 100 token refl refl

burn_effect_example :
    ((unwrap_or 0 token.enable_mint_burn ≢ 0)
      × ((some admin ≡ some admin) ⊎ (some admin ≡ some minter)))
    × (5 ≤ 100)
    × (5 ≤ 30)
    × ((burn token_store bob 5 token).1.total_supply ≡ some 95)
    × ((burn token_store bob 5 token).1.balance bob ≡ 25)
    × ((burn token_store bob 5 token).1.allowance bob alice ≡ 25)
unfolding burn ensure_mint_burn_enabled sec_check contains current_total_supply checked_sub
    events_mode_try_from Key-discrete ℕ_discrete
burn_effect_example = burn_effect bob bob bob alice 5 100 token refl refl

-- Bob has no badge.
abbrev by_bob : Token
by_bob = record token { caller = bob }

mint_answers_example :
    (((mint token_store bob 5 by_bob).0 ≡ err mint_burn_disabled)
      ↔ (unwrap_or 0 token.enable_mint_burn ≡ 0))
    × (((mint token_store bob 5 by_bob).0 ≡ err insufficient_rights) ↔ LacksBadge by_bob)
    × (((mint token_store bob 5 by_bob).0 ≡ err overflow)
        ↔ (MayMintBurn by_bob × ((u256_mod ≤ 30 + 5) ⊎ (u256_mod ≤ 100 + 5))))
    × (((mint token_store bob 5 by_bob).0 ≡ ok tt)
        ↔ (MayMintBurn by_bob × (30 + 5 < u256_mod) × (100 + 5 < u256_mod)))
unfolding Key-discrete ℕ_discrete
mint_answers_example = mint_answers bob 5 100 by_bob (omega arith) refl

burn_answers_example :
    (((burn token_store bob 50 token).0 ≡ err mint_burn_disabled)
      ↔ (unwrap_or 0 token.enable_mint_burn ≡ 0))
    × (((burn token_store bob 50 token).0 ≡ err insufficient_rights) ↔ LacksBadge token)
    × (((burn token_store bob 50 token).0 ≡ err insufficient_balance)
        ↔ (MayMintBurn token × (30 < 50)))
    × (((burn token_store bob 50 token).0 ≡ err failed_to_change_total_supply)
        ↔ (MayMintBurn token × (50 ≤ 30) × (100 < 50)))
    × (((burn token_store bob 50 token).0 ≡ ok tt) ↔ (MayMintBurn token × (50 ≤ 30) × (50 ≤ 100)))
unfolding Key-discrete ℕ_discrete
burn_answers_example = burn_answers bob 50 100 token (omega arith) refl

-- Alice makes Bob a minter; the list also names her, which changes nothing.
change_security_effect_example :
    (token.badge alice ≡ some admin)
    × (unwrap_or 0 token.enable_mint_burn ≢ 0)
    × ((change_security token_store token).1.badge bob ≡ some minter)
unfolding change_security ensure_mint_burn_enabled sec_check contains insert_all map_insert
    map_remove change_sec_badge events_mode_try_from member Key-discrete ℕ_discrete
change_security_effect_example = change_security_effect bob token refl

change_events_mode_effect_example :
    (token.badge alice ≡ some admin)
    × (1 < 4)
    × ((change_events_mode token_store 1 token).1.events_mode ≡ 1)
    × ((change_events_mode token_store 1 token).1.balance bob ≡ 30)
    × ((change_events_mode token_store 1 token).1.total_supply ≡ some 100)
    × ((change_events_mode token_store 1 token).1.badge bob ≡ token.badge bob)
unfolding change_events_mode sec_check contains events_mode_try_from Key-discrete ℕ_discrete
change_events_mode_effect_example = change_events_mode_effect 1 bob token refl

bob_listed : count bob holders ≡ 1
unfolding count Key-discrete ℕ_discrete
bob_listed = refl

backed_never_fails_example :
    ((transfer token_store bob 10 token).0 ≢ err overflow)
    × ((burn token_store bob 10 token).0 ≢ err failed_to_change_total_supply)
backed_never_fails_example = backed_never_fails holders bob 10 token token-IsBacked bob_listed

-- A transfer to Bob and a burn of Bob's tokens.
abbrev sent : Token
sent = (transfer token_store bob 10 token).1

abbrev burnt : Token
burnt = (burn token_store bob 10 sent).1

Reachable-IsBacked_example : IsBacked holders burnt
Reachable-IsBacked_example =
    Reachable-IsBacked holders token burnt token-IsBacked (
      later (later here (transfer_call token bob 10 bob_listed)) (burn_call sent bob 10 bob_listed))

from_bytes_drops_rest_example :
    (from_bytes (1 ∷ 7 ∷ []) ≡ Badge.ok minter [])
    × (from_bytes (1 ∷ 7 ∷ []) ≢ Badge.ok minter (7 ∷ []))
unfolding to_bytes
from_bytes_drops_rest_example = from_bytes_drops_rest minter 7 []
