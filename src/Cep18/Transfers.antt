-- ===== src/Cep18/Transfers.antt =====
-- The entry points of cep18.rs that move tokens between holders, run on the token of Cep18/Token.antt.
use casper_contract_kit.Base.{
  ℕ, ◌+◌, ◌-◌, ◌<◌, ◌≤◌, ◌≡◌, ◌≢◌, ◌↔◌, ltb, ◌&&◌, if◌then◌else◌, ok, err, arith,
}
use casper_contract_kit.Casper.{Key, key_eq}
use casper_contract_kit.Cep18.Error.{
  Cep18Error, cannot_target_self_user, insufficient_balance, overflow,
}
use casper_contract_kit.Cep18.Store.{
  u256_mod, checked_add, checked_sub, saturating_add, saturating_sub,
}
use casper_contract_kit.Cep18.Methods.{
  transfer_balance, approve, increase_allowance, decrease_allowance, transfer, transfer_from,
}
use casper_contract_kit.Cep18.Modalities.{events_mode_try_from}
use casper_contract_kit.Cep18.Token.{Token, token_store}

-- The balances after `n` tokens have moved from `a` to `b`.
abbrev pub moved : Key → Key → ℕ → (Key → ℕ) → Key → ℕ
moved a b n f k = if key_eq k a then f a - n else if key_eq k b then f b + n else f k

-- With an events mode in range and the recipient's balance a U256, a transfer succeeds exactly if it
-- goes to another key, the caller's balance covers it and the recipient's does not overflow.
pub transfer-succeeds_iff :
    (recipient : Key) (n : ℕ) (t : Token)
    → t.events_mode < 4
    → t.balance recipient < u256_mod
    → ((transfer token_store recipient n t).0 ≡ ok tt)
      ↔ ((t.caller ≢ recipient) × (n ≤ t.balance t.caller) × (t.balance recipient + n < u256_mod))
unfolding transfer transfer_balance checked_add checked_sub events_mode_try_from
transfer-succeeds_iff recipient n t m w =
    ((λ h. (ground arith, ground arith, ground arith)), λ (d, c, o). ground arith)

-- What `transfer_balance` answers: nothing moves between a key and itself or for 0 tokens; otherwise
-- the sender is checked before the recipient, and a refusal leaves the token as it was.
pub transfer_balance_refuses :
    (a b : Key) (n : ℕ) (t : Token)
    → ((transfer_balance token_store a b n t ≡ (err insufficient_balance, t))
        ↔ ((a ≢ b) × (t.balance a < n)))
      × ((transfer_balance token_store a b n t ≡ (err overflow, t))
          ↔ ((a ≢ b) × (0 < n) × (n ≤ t.balance a) × (u256_mod ≤ t.balance b + n)))
      × ((transfer_balance token_store a a n t ≡ (ok tt, t))
          × (transfer_balance token_store a b 0 t ≡ (ok tt, t)))
unfolding transfer_balance checked_add checked_sub
transfer_balance_refuses a b n t = (
  ((λ h. (ground arith, ground arith)), λ (d, l). ground arith),
  ((λ h. (ground arith, ground arith, ground arith, ground arith)), λ (d, p, l, o). ground arith),
  (ground arith, ground arith),
)

-- A transfer that ends without an error is between different keys, is covered by the caller's
-- balance, moves exactly `n` tokens from the caller to the recipient (nothing when `n` is 0), and
-- changes no other balance, no allowance and not the supply.
pub transfer_effect :
    (recipient k o s : Key) (n : ℕ) (t : Token)
    → (transfer token_store recipient n t).0 ≡ ok tt
    → (t.caller ≢ recipient)
      × (n ≤ t.balance t.caller)
      × ((transfer token_store recipient n t).1.balance k ≡ moved t.caller recipient n t.balance k)
      × ((transfer token_store recipient n t).1.allowance o s ≡ t.allowance o s)
      × ((transfer token_store recipient n t).1.total_supply ≡ t.total_supply)
unfolding transfer transfer_balance checked_add checked_sub events_mode_try_from
transfer_effect recipient k o s n t h =
    (ground arith, ground arith, ground arith, ground arith, ground arith)

-- A refused transfer leaves the token as it was.
pub transfer_refused :
    (recipient : Key) (n : ℕ) (t : Token) (e : Cep18Error)
    → (transfer token_store recipient n t).0 ≡ err e
    → (transfer token_store recipient n t).1 ≡ t
unfolding transfer transfer_balance checked_add checked_sub events_mode_try_from
transfer_refused recipient n t e h = ground arith

-- A refused `transfer_from` leaves the token as it was, the allowance included.
pub transfer_from_refused :
    (owner recipient : Key) (n : ℕ) (t : Token) (e : Cep18Error)
    → (transfer_from token_store owner recipient n t).0 ≡ err e
    → (transfer_from token_store owner recipient n t).1 ≡ t
unfolding transfer_from transfer_balance checked_add checked_sub events_mode_try_from
transfer_from_refused owner recipient n t e h = ground arith

-- `approve` sets the allowance of another key to the amount, and changes no other allowance and no
-- balance.
pub approve_effect :
    (spender o s k : Key) (n : ℕ) (t : Token)
    → (approve token_store spender n t).0 ≡ ok tt
    → (spender ≢ t.caller)
      × ((approve token_store spender n t).1.allowance o s
          ≡ (if key_eq o t.caller && key_eq s spender then n else t.allowance o s))
      × ((approve token_store spender n t).1.balance k ≡ t.balance k)
unfolding approve events_mode_try_from
approve_effect spender o s k n t h = (ground arith, ground arith, ground arith)

-- `increase_allowance` adds the amount to the allowance of another key, up to the largest U256, and
-- changes no other allowance and no balance.
pub increase_allowance_effect :
    (spender o s k : Key) (n : ℕ) (t : Token)
    → (increase_allowance token_store spender n t).0 ≡ ok tt
    → (spender ≢ t.caller)
      × ((increase_allowance token_store spender n t).1.allowance o s ≡ (
          if key_eq o t.caller && key_eq s spender
          then (if ltb (t.allowance t.caller spender + n) u256_mod
              then t.allowance t.caller spender + n
              else u256_mod - 1)
          else t.allowance o s))
      × ((increase_allowance token_store spender n t).1.balance k ≡ t.balance k)
unfolding increase_allowance saturating_add events_mode_try_from
increase_allowance_effect spender o s k n t h = (ground arith, ground arith, ground arith)

-- `decrease_allowance` takes the amount from the allowance of another key, down to 0, and changes no
-- other allowance and no balance.
pub decrease_allowance_effect :
    (spender o s k : Key) (n : ℕ) (t : Token)
    → (decrease_allowance token_store spender n t).0 ≡ ok tt
    → (spender ≢ t.caller)
      × ((decrease_allowance token_store spender n t).1.allowance o s ≡ (
          if key_eq o t.caller && key_eq s spender
          then t.allowance t.caller spender - n
          else t.allowance o s))
      × ((decrease_allowance token_store spender n t).1.balance k ≡ t.balance k)
unfolding decrease_allowance saturating_sub events_mode_try_from
decrease_allowance_effect spender o s k n t h = (ground arith, ground arith, ground arith)

-- The three entry points that set an allowance refuse exactly the caller as its own spender, and
-- then change nothing.
pub own_spender_refused :
    (spender : Key) (n : ℕ) (t : Token)
    → ((approve token_store spender n t ≡ (err cannot_target_self_user, t)) ↔ (spender ≡ t.caller))
      × ((increase_allowance token_store spender n t ≡ (err cannot_target_self_user, t))
          ↔ (spender ≡ t.caller))
      × ((decrease_allowance token_store spender n t ≡ (err cannot_target_self_user, t))
          ↔ (spender ≡ t.caller))
unfolding approve increase_allowance decrease_allowance events_mode_try_from
own_spender_refused spender n t = (
  (λ h. ground arith, λ e. ground arith),
  (λ h. ground arith, λ e. ground arith),
  (λ h. ground arith, λ e. ground arith),
)
