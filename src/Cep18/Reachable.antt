-- ===== src/Cep18/Reachable.antt =====
-- Executions of the token: sequences of calls of the entry points of cep18.rs, by any callers, with
-- any arguments, each one ended as the code ends it.
use casper_contract_kit.Base.{ℕ, String, ◌≡◌, refl, List, arith}
use casper_contract_kit.Casper.{Key}
use casper_contract_kit.Cep18.Badge.{contains}
use casper_contract_kit.Cep18.Store.{saturating_add, saturating_sub}
use casper_contract_kit.Cep18.Methods.{
  sec_check, approve, increase_allowance, decrease_allowance, transfer, transfer_from, mint, burn,
  change_security, change_events_mode,
}
use casper_contract_kit.Cep18.Modalities.{events_mode_try_from}
use casper_contract_kit.Cep18.Token.{Token, KeyList, token_store}
use casper_contract_kit.Cep18.Sums.{count}
use casper_contract_kit.Cep18.Access.{security_accounts}
use casper_contract_kit.Cep18.Backed.{IsBacked, entry_points-IsBacked, Backs-eq}

-- One call. Tokens go to, and are burnt from, the accounts of `holders` only.
pub data Step (holders : List Key) : Token → Token → Type 0 where
  next_caller :
      (t : Token) (k : Key) (lists : String → KeyList)
      → Step holders t (record t { caller = k; key_lists = lists })
  approve_call : (t : Token) (s : Key) (n : ℕ) → Step holders t (approve token_store s n t).1
  increase_call :
      (t : Token) (s : Key) (n : ℕ) → Step holders t (increase_allowance token_store s n t).1
  decrease_call :
      (t : Token) (s : Key) (n : ℕ) → Step holders t (decrease_allowance token_store s n t).1
  transfer_call :
      (t : Token) (b : Key) (n : ℕ)
      → count b holders ≡ 1
      → Step holders t (transfer token_store b n t).1
  transfer_from_call :
      (t : Token) (a b : Key) (n : ℕ)
      → count b holders ≡ 1
      → Step holders t (transfer_from token_store a b n t).1
  mint_call :
      (t : Token) (b : Key) (n : ℕ)
      → count b holders ≡ 1
      → Step holders t (mint token_store b n t).1
  burn_call :
      (t : Token) (b : Key) (n : ℕ)
      → count b holders ≡ 1
      → Step holders t (burn token_store b n t).1
  change_security_call : (t : Token) → Step holders t (change_security token_store t).1
  change_events_mode_call :
      (t : Token) (mode : ℕ) → Step holders t (change_events_mode token_store mode t).1

pub data Reachable (holders : List Key) : Token → Token → Type 0 where
  here : {t : Token} → Reachable holders t t
  later : {t u v : Token} → Reachable holders t u → Step holders u v → Reachable holders t v

approve_accounts :
    (s : Key) (n : ℕ) (t : Token)
    → ((approve token_store s n t).1.balance ≡ t.balance)
      × ((approve token_store s n t).1.total_supply ≡ t.total_supply)
unfolding approve events_mode_try_from
approve_accounts s n t = (ground arith, ground arith)

increase_accounts :
    (s : Key) (n : ℕ) (t : Token)
    → ((increase_allowance token_store s n t).1.balance ≡ t.balance)
      × ((increase_allowance token_store s n t).1.total_supply ≡ t.total_supply)
unfolding increase_allowance saturating_add events_mode_try_from
increase_accounts s n t = (ground arith, ground arith)

decrease_accounts :
    (s : Key) (n : ℕ) (t : Token)
    → ((decrease_allowance token_store s n t).1.balance ≡ t.balance)
      × ((decrease_allowance token_store s n t).1.total_supply ≡ t.total_supply)
unfolding decrease_allowance saturating_sub events_mode_try_from
decrease_accounts s n t = (ground arith, ground arith)

mode_accounts :
    (mode : ℕ) (t : Token)
    → ((change_events_mode token_store mode t).1.balance ≡ t.balance)
      × ((change_events_mode token_store mode t).1.total_supply ≡ t.total_supply)
unfolding change_events_mode sec_check contains events_mode_try_from
mode_accounts mode t = (ground arith, ground arith)

pub Step-IsBacked :
    (holders : List Key) {t u : Token} → Step holders t u → IsBacked holders t → IsBacked holders u
Step-IsBacked holders (next_caller t k lists) h = Backs-eq holders h refl refl
Step-IsBacked holders (approve_call t s n) h =
    let (b, v) = approve_accounts s n t in Backs-eq holders h b v
Step-IsBacked holders (increase_call t s n) h =
    let (b, v) = increase_accounts s n t in Backs-eq holders h b v
Step-IsBacked holders (decrease_call t s n) h =
    let (b, v) = decrease_accounts s n t in Backs-eq holders h b v
Step-IsBacked holders (transfer_call t b n l) h =
    let (p, _, _, _) = entry_points-IsBacked holders b b n t h l in p
Step-IsBacked holders (transfer_from_call t o b n l) h =
    let (_, p, _, _) = entry_points-IsBacked holders o b n t h l in p
Step-IsBacked holders (mint_call t b n l) h =
    let (_, _, p, _) = entry_points-IsBacked holders b b n t h l in p
Step-IsBacked holders (burn_call t b n l) h =
    let (_, _, _, p) = entry_points-IsBacked holders b b n t h l in p
Step-IsBacked holders (change_security_call t) h =
    let (b, v) = security_accounts t in Backs-eq holders h b v
Step-IsBacked holders (change_events_mode_call t mode) h =
    let (b, v) = mode_accounts mode t in Backs-eq holders h b v

-- From a token whose supply is the sum of the balances of a list of holders, any sequence of
-- calls, successful or refused, that sends tokens to and burns them from listed accounts leads to
-- a token whose supply is again that sum and fits a U256.
pub Reachable-IsBacked :
    (holders : List Key) (t u : Token)
    → IsBacked holders t
    → Reachable holders t u
    → IsBacked holders u
Reachable-IsBacked holders t u h here = h
Reachable-IsBacked holders t u h (later r s) =
    Step-IsBacked holders s (Reachable-IsBacked holders t _ h r)
