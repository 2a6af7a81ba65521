-- ===== src/Cep18/Sums.antt =====
-- The sum of the balances of a list of holders, and what setting one balance does to it.
use casper_contract_kit.Base.{ℕ, ◌+◌, ◌≤◌, ◌≡◌, ◌≢◌, refl, List, [], ◌∷◌, if◌then◌else◌, arith}
use casper_contract_kit.Casper.{Key, key_eq}
use casper_contract_kit.Cep18.Token.{set_balance}

unfoldable pub sum : List Key → (Key → ℕ) → ℕ
sum [] f = 0
sum (k ∷ holders) f = f k + sum holders f

-- How often a list names a key.
unfoldable pub count : Key → List Key → ℕ
count k [] = 0
count k (j ∷ holders) = (if key_eq j k then 1 else 0) + count k holders

pub sum-unlisted :
    (holders : List Key) (k : Key) (v : ℕ) (f : Key → ℕ)
    → count k holders ≡ 0
    → sum holders (set_balance k v f) ≡ sum holders f
unfolding sum count
sum-unlisted [] k v f h = refl
sum-unlisted (j ∷ holders) k v f h = ground (arith, sum-unlisted holders k v f)

pub sum-listed :
    (holders : List Key) (k : Key) (v : ℕ) (f : Key → ℕ)
    → count k holders ≡ 1
    → sum holders (set_balance k v f) + f k ≡ sum holders f + v
unfolding sum count
sum-listed [] k v f h = omega arith
sum-listed (j ∷ holders) k v f h =
    ground (arith, sum-listed holders k v f, sum-unlisted holders k v f)

-- A listed balance is at most the sum.
pub balance_le_sum :
    (holders : List Key) (k : Key) (f : Key → ℕ) → count k holders ≡ 1 → f k ≤ sum holders f
unfolding sum count
balance_le_sum [] k f h = omega arith
balance_le_sum (j ∷ holders) k f h = ground (arith, balance_le_sum holders k f)

-- Two listed balances of different keys together are at most the sum.
pub two_balances_le_sum :
    (holders : List Key) (a b : Key) (f : Key → ℕ)
    → a ≢ b
    → count a holders ≡ 1
    → count b holders ≡ 1
    → f a + f b ≤ sum holders f
unfolding sum count
two_balances_le_sum [] a b f d ha hb = omega arith
two_balances_le_sum (j ∷ holders) a b f d ha hb = ground (
  arith,
  two_balances_le_sum holders a b f d,
  balance_le_sum holders a f,
  balance_le_sum holders b f,
)
