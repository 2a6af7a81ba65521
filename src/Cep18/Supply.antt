-- ===== src/Cep18/Supply.antt =====
-- `mint` and `burn` of cep18.rs with `sec_check` of security.rs, run on the token of Cep18/Token.antt.
use casper_contract_kit.Base.{
  ℕ, ◌+◌, ◌-◌, ◌<◌, ◌≤◌, ◌≡◌, ◌≢◌, ◌↔◌, ◌⊎◌, inl, inr, [], ◌∷◌, some, unwrap_or, if◌then◌else◌, ok,
  err, arith,
}
use casper_contract_kit.Casper.{Key, key_eq}
use casper_contract_kit.Cep18.Error.{
  Cep18Error, insufficient_rights, mint_burn_disabled, overflow, insufficient_balance,
  failed_to_change_total_supply,
}
use casper_contract_kit.Cep18.Badge.{admin, minter, contains}
use casper_contract_kit.Cep18.Store.{u256_mod, checked_add, checked_sub}
use casper_contract_kit.Cep18.Methods.{
  ensure_mint_burn_enabled, sec_check, current_total_supply, mint, burn,
}
use casper_contract_kit.Cep18.Modalities.{events_mode_try_from}
use casper_contract_kit.Cep18.Token.{Token, token_store}

-- The caller may mint and burn: the flag is set and the badge is Admin or Minter.
abbrev pub MayMintBurn : Token → Type 0
MayMintBurn t =
    (unwrap_or 0 t.enable_mint_burn ≢ 0)
    × ((t.badge t.caller ≡ some admin) ⊎ (t.badge t.caller ≡ some minter))

-- A `mint` that ends without an error was asked for by a holder of the Admin or Minter badge with
-- minting enabled, adds the amount to the owner's balance and to the supply, neither past the largest
-- U256, and changes no other balance and no allowance.
pub mint_effect :
    (owner k o s : Key) (n supply : ℕ) (t : Token)
    → t.total_supply ≡ some supply
    → (mint token_store owner n t).0 ≡ ok tt
    → MayMintBurn t
      × (supply + n < u256_mod)
      × (t.balance owner + n < u256_mod)
      × ((mint token_store owner n t).1.total_supply ≡ some (supply + n))
      × ((mint token_store owner n t).1.balance k
          ≡ (if key_eq k owner then t.balance owner + n else t.balance k))
      × ((mint token_store owner n t).1.allowance o s ≡ t.allowance o s)
unfolding mint ensure_mint_burn_enabled sec_check contains current_total_supply checked_add
    events_mode_try_from
mint_effect owner k o s n supply t e h = (
  (ground arith, ground arith),
  ground arith,
  ground arith,
  ground arith,
  ground arith,
  ground arith,
)

-- A `burn` that ends without an error was asked for by a holder of the Admin or Minter badge with
-- burning enabled, takes the amount from the owner's balance and from the supply, which both cover
-- it, and changes no other balance and no allowance.
pub burn_effect :
    (owner k o s : Key) (n supply : ℕ) (t : Token)
    → t.total_supply ≡ some supply
    → (burn token_store owner n t).0 ≡ ok tt
    → MayMintBurn t
      × (n ≤ supply)
      × (n ≤ t.balance owner)
      × ((burn token_store owner n t).1.total_supply ≡ some (supply - n))
      × ((burn token_store owner n t).1.balance k
          ≡ (if key_eq k owner then t.balance owner - n else t.balance k))
      × ((burn token_store owner n t).1.allowance o s ≡ t.allowance o s)
unfolding burn ensure_mint_burn_enabled sec_check contains current_total_supply checked_sub
    events_mode_try_from
burn_effect owner k o s n supply t e h = (
  (ground arith, ground arith),
  ground arith,
  ground arith,
  ground arith,
  ground arith,
  ground arith,
)

-- A refused `mint` or `burn` leaves the token as it was.
pub mint-burn_refused :
    (owner : Key) (n : ℕ) (t : Token) (e e' : Cep18Error)
    → (mint token_store owner n t).0 ≡ err e
    → (burn token_store owner n t).0 ≡ err e'
    → ((mint token_store owner n t).1 ≡ t) × ((burn token_store owner n t).1 ≡ t)
unfolding mint burn ensure_mint_burn_enabled sec_check contains current_total_supply checked_add
    checked_sub events_mode_try_from
mint-burn_refused owner n t e e' h h' = (ground arith, ground arith)

-- The flag is set, and the caller has neither the Admin nor the Minter badge.
abbrev pub LacksBadge : Token → Type 0
LacksBadge t =
    (unwrap_or 0 t.enable_mint_burn ≢ 0)
    × (t.badge t.caller ≢ some admin)
    × (t.badge t.caller ≢ some minter)

-- Who may mint and burn passes both guards.
guards_pass :
    (t : Token)
    → MayMintBurn t
    → (ensure_mint_burn_enabled token_store t ≡ (ok tt, t))
      × (sec_check token_store (admin ∷ minter ∷ []) t ≡ (ok tt, t))
unfolding ensure_mint_burn_enabled sec_check contains
guards_pass t (f, inl a) = (ground arith, ground arith)
guards_pass t (f, inr a) = (ground arith, ground arith)

mint_overflows :
    (owner : Key) (n supply : ℕ) (t : Token)
    → t.total_supply ≡ some supply
    → MayMintBurn t
    → (u256_mod ≤ t.balance owner + n) ⊎ (u256_mod ≤ supply + n)
    → (mint token_store owner n t).0 ≡ err overflow
unfolding mint current_total_supply checked_add
mint_overflows owner n supply t e may o =
    ground (arith, (guards_pass t may).0, (guards_pass t may).1)

burn_fails :
    (owner : Key) (n supply : ℕ) (t : Token)
    → t.total_supply ≡ some supply
    → MayMintBurn t
    → n ≤ t.balance owner
    → supply < n
    → (burn token_store owner n t).0 ≡ err failed_to_change_total_supply
unfolding burn current_total_supply checked_sub
burn_fails owner n supply t e may c o = ground (arith, (guards_pass t may).0, (guards_pass t may).1)

-- With an events mode in range and a supply that is there, a `mint` is refused as disabled exactly if
-- the flag is off, for want of rights exactly if the flag is on and the caller has neither the Admin
-- nor the Minter badge, and with an overflow exactly if the caller may mint and the owner's balance or
-- the supply would pass the largest U256; it succeeds exactly if the caller may mint and both stay in
-- range.
pub mint_answers :
    (owner : Key) (n supply : ℕ) (t : Token)
    → t.events_mode < 4
    → t.total_supply ≡ some supply
    → (((mint token_store owner n t).0 ≡ err mint_burn_disabled)
        ↔ (unwrap_or 0 t.enable_mint_burn ≡ 0))
      × (((mint token_store owner n t).0 ≡ err insufficient_rights) ↔ LacksBadge t)
      × (((mint token_store owner n t).0 ≡ err overflow)
          ↔ (MayMintBurn t × ((u256_mod ≤ t.balance owner + n) ⊎ (u256_mod ≤ supply + n))))
      × (((mint token_store owner n t).0 ≡ ok tt)
          ↔ (MayMintBurn t × (t.balance owner + n < u256_mod) × (supply + n < u256_mod)))
unfolding mint ensure_mint_burn_enabled sec_check contains current_total_supply checked_add
    events_mode_try_from
mint_answers owner n supply t mode e = (
  (λ h. ground arith, λ h. ground arith),
  ((λ h. (ground arith, ground arith, ground arith)), λ (f, a, m). ground arith),
  (
    (λ h. ((ground arith, ground arith), ground arith)),
    λ (may, o). mint_overflows owner n supply t e may o,
  ),
  (
    (λ h. ((ground arith, ground arith), ground arith, ground arith)),
    λ ((f, b), o, p). elim b [ inl a ↦ ground arith | inr a ↦ ground arith ],
  ),
)

-- With an events mode in range and a supply that is there, a `burn` is refused as disabled exactly if
-- the flag is off, for want of rights exactly if the flag is on and the caller has neither the Admin
-- nor the Minter badge, for an insufficient balance exactly if the caller may burn and the owner's
-- balance does not cover the amount, and with FailedToChangeTotalSupply exactly if the caller may burn,
-- the balance covers the amount and the supply does not; it succeeds exactly if the caller may burn
-- and both cover it.
pub burn_answers :
    (owner : Key) (n supply : ℕ) (t : Token)
    → t.events_mode < 4
    → t.total_supply ≡ some supply
    → (((burn token_store owner n t).0 ≡ err mint_burn_disabled)
        ↔ (unwrap_or 0 t.enable_mint_burn ≡ 0))
      × (((burn token_store owner n t).0 ≡ err insufficient_rights) ↔ LacksBadge t)
      × (((burn token_store owner n t).0 ≡ err insufficient_balance)
          ↔ (MayMintBurn t × (t.balance owner < n)))
      × (((burn token_store owner n t).0 ≡ err failed_to_change_total_supply)
          ↔ (MayMintBurn t × (n ≤ t.balance owner) × (supply < n)))
      × (((burn token_store owner n t).0 ≡ ok tt)
          ↔ (MayMintBurn t × (n ≤ t.balance owner) × (n ≤ supply)))
unfolding burn ensure_mint_burn_enabled sec_check contains current_total_supply checked_sub
    events_mode_try_from
burn_answers owner n supply t mode e = (
  (λ h. ground arith, λ h. ground arith),
  ((λ h. (ground arith, ground arith, ground arith)), λ (f, a, m). ground arith),
  (
    (λ h. ((ground arith, ground arith), ground arith)),
    λ ((f, b), o). elim b [ inl a ↦ ground arith | inr a ↦ ground arith ],
  ),
  (
    (λ h. ((ground arith, ground arith), ground arith, ground arith)),
    λ (may, c, o). burn_fails owner n supply t e may c o,
  ),
  (
    (λ h. ((ground arith, ground arith), ground arith, ground arith)),
    λ ((f, b), o, p). elim b [ inl a ↦ ground arith | inr a ↦ ground arith ],
  ),
)
