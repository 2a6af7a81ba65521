-- ===== src/Cep18/Backed.antt =====
-- The accounting invariant of cep18.rs: the supply is the sum of the balances.
use casper_contract_kit.Base.{
  ℕ, ◌+◌, ◌-◌, ◌<◌, ◌≤◌, ◌≡◌, ◌≢◌, ◌⊎◌, inl, inr, sym, ap, subst, Option, some, List, err, arith,
}
use casper_contract_kit.Casper.{Key}
use casper_contract_kit.Cep18.Error.{overflow, failed_to_change_total_supply}
use casper_contract_kit.Cep18.Badge.{contains}
use casper_contract_kit.Cep18.Store.{u256_mod, checked_add, checked_sub}
use casper_contract_kit.Cep18.Methods.{
  ensure_mint_burn_enabled, sec_check, current_total_supply, transfer_balance, transfer,
  transfer_from, mint, burn,
}
use casper_contract_kit.Cep18.Modalities.{events_mode_try_from}
use casper_contract_kit.Cep18.Token.{Token, token_store, set_balance}
use casper_contract_kit.Cep18.Sums.{sum, count, sum-listed, balance_le_sum, two_balances_le_sum}

-- Balances `f` with a supply: every holder of tokens is in the list, which names nobody twice, and the
-- supply, a U256, is the sum of the balances of the list.
pub record Backs (holders : List Key) (f : Key → ℕ) (supply : Option ℕ) : Type 0 where
  pub once : (k : Key) → count k holders ≤ 1
  pub covers : (k : Key) → count k holders ≡ 0 → f k ≡ 0
  pub is_sum : supply ≡ some (sum holders f)
  pub bound : sum holders f < u256_mod

abbrev pub IsBacked : List Key → Token → Type 0
IsBacked holders t = Backs holders t.balance t.total_supply

-- Setting one listed balance, and the supply by the same difference.
set-Backs :
    (holders : List Key) (k : Key) (v s s' : ℕ) (f : Key → ℕ)
    → Backs holders f (some s)
    → count k holders ≡ 1
    → s' + f k ≡ s + v
    → s' < u256_mod
    → Backs holders (set_balance k v f) (some s')
set-Backs holders k v s s' f backed listed e small =
    let total = sum-listed holders k v f listed in
    let before = backed.is_sum in
    record {
      once = backed.once;
      covers = λ j h. ground (arith, backed.covers j h);
      is_sum = ap some (ground arith);
      bound = ground arith;
    }

-- The two writes of `transfer_balance`.
pub move-Backs :
    (holders : List Key) (a b : Key) (n : ℕ) (f : Key → ℕ) (supply : Option ℕ)
    → Backs holders f supply
    → count b holders ≡ 1
    → a ≢ b
    → 0 < n
    → n ≤ f a
    → Backs holders (set_balance b (f b + n) (set_balance a (f a - n) f)) supply
move-Backs holders a b n f supply backed listed d p c =
    let listed_a : count a holders ≡ 1 = ground (arith, backed.once a, backed.covers a) in
    let le = balance_le_sum holders a f listed_a in
    let start : Backs holders f (some (sum holders f)) =
      subst (λ q. Backs holders f q) backed.is_sum backed in
    let taken : Backs holders (set_balance a (f a - n) f) (some (sum holders f - n)) =
      set-Backs holders a (f a - n) (sum holders f) (sum holders f - n) f start listed_a
        (omega arith) (ground (arith, backed.bound)) in
    subst (λ q. Backs holders (set_balance b (f b + n) (set_balance a (f a - n) f)) q)
      (sym backed.is_sum)
      (set-Backs holders b (f b + n) (sum holders f - n) (sum holders f) (set_balance a (f a - n) f)
        taken listed (ground (arith, le)) backed.bound)

-- What the entry points do to balances and supply, in the terms of the lemmas above.
abbrev pub Moves : Key → Key → ℕ → Token → Token → Type 0
Moves a b n t u =
    ((u.balance ≡ t.balance) × (u.total_supply ≡ t.total_supply))
    ⊎ ((a ≢ b)
        × (0 < n)
        × (n ≤ t.balance a)
        × (u.balance ≡ set_balance b (t.balance b + n) (set_balance a (t.balance a - n) t.balance))
        × (u.total_supply ≡ t.total_supply))

transfer_balance_cases :
    (a b : Key) (n : ℕ) (t : Token) → Moves a b n t (transfer_balance token_store a b n t).1
unfolding transfer_balance checked_add checked_sub
transfer_balance_cases a b n t = ground arith

transfer_cases : (b : Key) (n : ℕ) (t : Token) → Moves t.caller b n t (transfer token_store b n t).1
unfolding transfer transfer_balance checked_add checked_sub events_mode_try_from
transfer_cases b n t = ground arith

transfer_from_cases :
    (a b : Key) (n : ℕ) (t : Token) → Moves a b n t (transfer_from token_store a b n t).1
unfolding transfer_from transfer_balance checked_add checked_sub events_mode_try_from
transfer_from_cases a b n t = ground arith

-- One balance and the supply become other numbers, or neither changes.
abbrev pub Sets : Key → ℕ → ℕ → Type 0 → Token → Token → Type 0
Sets k v s P t u =
    ((u.balance ≡ t.balance) × (u.total_supply ≡ t.total_supply))
    ⊎ (P × (u.balance ≡ set_balance k v t.balance) × (u.total_supply ≡ some s))

mint_cases :
    (k : Key) (n s : ℕ) (t : Token)
    → t.total_supply ≡ some s
    → Sets k (t.balance k + n) (s + n) (s + n < u256_mod) t (mint token_store k n t).1
unfolding mint ensure_mint_burn_enabled sec_check contains current_total_supply checked_add
    events_mode_try_from
mint_cases k n s t e = ground arith

burn_cases :
    (k : Key) (n s : ℕ) (t : Token)
    → t.total_supply ≡ some s
    → Sets k (t.balance k - n) (s - n) ((n ≤ s) × (n ≤ t.balance k)) t (burn token_store k n t).1
unfolding burn ensure_mint_burn_enabled sec_check contains current_total_supply checked_sub
    events_mode_try_from
burn_cases k n s t e = ground arith

pub Backs-eq :
    (holders : List Key) {f g : Key → ℕ} {p q : Option ℕ}
    → Backs holders f p
    → g ≡ f
    → q ≡ p
    → Backs holders g q
Backs-eq holders {f} {g} {p} {q} backed e e' =
    subst (λ h. Backs holders h q) (sym e) (subst (λ r. Backs holders f r) (sym e') backed)

pub Moves-IsBacked :
    (holders : List Key) (a b : Key) (n : ℕ) (t u : Token)
    → IsBacked holders t
    → count b holders ≡ 1
    → Moves a b n t u
    → IsBacked holders u
Moves-IsBacked holders a b n t u backed listed (inl (e, e')) = Backs-eq holders backed e e'
Moves-IsBacked holders a b n t u backed listed (inr (d, p, c, e, e')) =
    Backs-eq holders (move-Backs holders a b n t.balance t.total_supply backed listed d p c) e e'

Sets-IsBacked :
    (holders : List Key) (k : Key) (v s : ℕ) {P : Type 0} (t u : Token)
    → IsBacked holders t
    → count k holders ≡ 1
    → (P → (s + t.balance k ≡ sum holders t.balance + v) × (s < u256_mod))
    → Sets k v s P t u
    → IsBacked holders u
Sets-IsBacked holders k v s t u backed listed sound (inl (e, e')) = Backs-eq holders backed e e'
Sets-IsBacked holders k v s t u backed listed sound (inr (p, e, e')) =
    let start = subst (λ q. Backs holders t.balance q) backed.is_sum backed in
    let (same, small) = sound p in
    Backs-eq holders
      (set-Backs holders k v (sum holders t.balance) s t.balance start listed same small) e e'

-- The four entry points that change balances keep the supply the sum of the balances, whatever they
-- answer, when the account that may receive tokens, or whose tokens are burnt, is listed.
pub entry_points-IsBacked :
    (holders : List Key) (a b : Key) (n : ℕ) (t : Token)
    → IsBacked holders t
    → count b holders ≡ 1
    → IsBacked holders (transfer token_store b n t).1
      × IsBacked holders (transfer_from token_store a b n t).1
      × IsBacked holders (mint token_store b n t).1
      × IsBacked holders (burn token_store b n t).1
entry_points-IsBacked holders a b n t backed listed =
    let total = sum holders t.balance in
    (
      Moves-IsBacked holders t.caller b n t (transfer token_store b n t).1 backed listed
          (transfer_cases b n t),
      Moves-IsBacked holders a b n t (transfer_from token_store a b n t).1 backed listed
          (transfer_from_cases a b n t),
      Sets-IsBacked holders b (t.balance b + n) (total + n) t (mint token_store b n t).1 backed
          listed (λ h. (omega arith, h)) (mint_cases b n total t backed.is_sum),
      Sets-IsBacked holders b (t.balance b - n) (total - n) t (burn token_store b n t).1 backed
          listed (λ (h, h'). (omega arith, ground (arith, backed.bound)))
          (burn_cases b n total t backed.is_sum),
    )

-- When the supply is the sum of the balances of a list of holders, a transfer to a listed account
-- is never refused for an overflow, and a burn from one is never refused for the supply.
pub backed_never_fails :
    (holders : List Key) (b : Key) (n : ℕ) (t : Token)
    → IsBacked holders t
    → count b holders ≡ 1
    → ((transfer token_store b n t).0 ≢ err overflow)
      × ((burn token_store b n t).0 ≢ err failed_to_change_total_supply)
unfolding transfer transfer_balance burn ensure_mint_burn_enabled sec_check contains
    current_total_supply checked_add checked_sub events_mode_try_from
backed_never_fails holders b n t backed listed = (no_overflow, no_failure)
  where
    le : t.balance b ≤ sum holders t.balance
    le = balance_le_sum holders b t.balance listed

    together : t.caller ≢ b → t.balance t.caller + t.balance b ≤ sum holders t.balance
    together d = ground (
      arith,
      le,
      backed.once t.caller,
      backed.covers t.caller,
      two_balances_le_sum holders t.caller b t.balance d,
    )

    no_overflow : (transfer token_store b n t).0 ≢ err overflow
    no_overflow = ground (arith, together, backed.bound)

    no_failure : (burn token_store b n t).0 ≢ err failed_to_change_total_supply
    no_failure = ground (arith, le, backed.is_sum)
