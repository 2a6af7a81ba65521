-- ===== src/Collections/Base128/Digits.antt =====
-- base128.rs: the digits that `encode_bytes` writes, as a recursion without a buffer.
use casper_contract_kit.Base.{
  ℕ, zero, suc, ◌+◌, ◌-◌, ◌/◌, ◌*◌, ◌%◌, ◌^◌, ◌≤◌, ◌<◌, ◌≡◌, refl, sym, ap, ◌∙◌, ◌⊎◌, inl, inr,
  bit_and, Bytes, IsByte, All, [], ◌∷◌, ◌++◌, ltb, if◌then◌else◌, append_assoc, append-nil, arith,
}
use casper_contract_kit.Base.Bits.{bit_and-127}
use casper_contract_kit.Collections.Base128.{drain, load, encode_loop, encode_last, encode_bytes}
use casper_contract_kit.Collections.Base128.Groups.{buffer, encode_one, encode_two}

-- The digits of `bytes` when `n` bits, the number `x`, are pending. Six pending bits and a byte
-- are two digits.
unfoldable pub digits : ℕ → ℕ → Bytes → Bytes
digits n x [] = if ltb 0 n then x * 2 ^ (7 - n) ∷ [] else []
digits n x (c ∷ cs) =
    let carry = (x * 256 + c) / 2 ^ suc n ∷ digits (suc n) ((x * 256 + c) % 2 ^ suc n) cs in
    let flush = (x * 256 + c) / 128 ∷ c % 128 ∷ digits 0 0 cs in if ltb n 6 then carry else flush

-- The number of pending bits is 0 to 5, or 6.
pub pending_cases : (n : ℕ) → n < 7 → (n < 6) ⊎ (n ≡ 6)
pending_cases n h = omega arith

pow_bound : (n : ℕ) → n < 7 → 2 ^ n ≤ 64
pow_bound zero h = omega arith
pow_bound (suc zero) h = omega arith
pow_bound (suc (suc zero)) h = omega arith
pow_bound (suc (suc (suc zero))) h = omega arith
pow_bound (suc (suc (suc (suc zero)))) h = omega arith
pow_bound (suc (suc (suc (suc (suc zero))))) h = omega arith
pow_bound (suc (suc (suc (suc (suc (suc zero)))))) h = omega arith
pow_bound (suc (suc (suc (suc (suc (suc (suc n))))))) h = absurd (omega arith)

-- A digit of the encoder, with `n` pending bits below `2 ^ n`, has seven bits.
pub digit_small : (n x c : ℕ) → n < 6 → x < 2 ^ n → c < 256 → (x * 256 + c) / 2 ^ suc n < 128
digit_small zero x c h hx hc = omega arith
digit_small (suc zero) x c h hx hc = omega arith
digit_small (suc (suc zero)) x c h hx hc = omega arith
digit_small (suc (suc (suc zero))) x c h hx hc = omega arith
digit_small (suc (suc (suc (suc zero)))) x c h hx hc = omega arith
digit_small (suc (suc (suc (suc (suc zero))))) x c h hx hc = omega arith
digit_small (suc (suc (suc (suc (suc (suc n)))))) x c h hx hc = absurd (omega arith)

pub rest_small : (n y : ℕ) → n < 6 → y % 2 ^ suc n < 2 ^ suc n
rest_small zero y h = omega arith
rest_small (suc zero) y h = omega arith
rest_small (suc (suc zero)) y h = omega arith
rest_small (suc (suc (suc zero))) y h = omega arith
rest_small (suc (suc (suc (suc zero)))) y h = omega arith
rest_small (suc (suc (suc (suc (suc zero))))) y h = omega arith
rest_small (suc (suc (suc (suc (suc (suc n)))))) y h = absurd (omega arith)

-- The last digit, shifted to the top of seven bits.
pub last_small : (n x : ℕ) → 0 < n → n < 7 → x < 2 ^ n → x * 2 ^ (7 - n) < 128
last_small zero x p h hx = absurd (omega arith)
last_small (suc zero) x p h hx = omega arith
last_small (suc (suc zero)) x p h hx = omega arith
last_small (suc (suc (suc zero))) x p h hx = omega arith
last_small (suc (suc (suc (suc zero)))) x p h hx = omega arith
last_small (suc (suc (suc (suc (suc zero))))) x p h hx = omega arith
last_small (suc (suc (suc (suc (suc (suc zero)))))) x p h hx = omega arith
last_small (suc (suc (suc (suc (suc (suc (suc n))))))) x p h hx = absurd (omega arith)

encode_last_eq :
    (o : Bytes) (x n : ℕ) → n < 7 → x < 2 ^ n → encode_last (buffer o x n) ≡ o ++ digits n x []
unfolding encode_last digits
encode_last_eq o x zero h hx = sym (append-nil o)
encode_last_eq o x (suc n) h hx =
    let y = x * 2 ^ (7 - suc n) in
    let bound : y < 128 = last_small (suc n) x (omega arith) h hx in
    let digit : bit_and (y % 2 ^ 32 % 256) 0x7f ≡ y = rw bit_and-127 (omega arith) in
    ground (arith, digit)

pub digits_carry :
    (n x c : ℕ) (cs : Bytes)
    → n < 6
    → digits n x (c ∷ cs)
      ≡ (x * 256 + c) / 2 ^ suc n ∷ digits (suc n) ((x * 256 + c) % 2 ^ suc n) cs
unfolding digits
digits_carry n x c cs less = ground arith

pub digits_flush :
    (x c : ℕ) (cs : Bytes) → digits 6 x (c ∷ cs) ≡ (x * 256 + c) / 128 ∷ c % 128 ∷ digits 0 0 cs
unfolding digits
digits_flush x c cs = refl

pub digits_end : (n x : ℕ) → 0 < n → digits n x [] ≡ x * 2 ^ (7 - n) ∷ []
unfolding digits
digits_end n x h = ground arith

encode_flush :
    (o : Bytes) (x c : ℕ) (cs : Bytes)
    → x < 64
    → c < 256
    → ((o' : Bytes) → encode_last (encode_loop cs (buffer o' 0 0)) ≡ o' ++ digits 0 0 cs)
    → encode_last (encode_loop cs (drain 7 0x7f (load 8 c (buffer o x 6))))
      ≡ o ++ digits 6 x (c ∷ cs)
unfolding digits
encode_flush o x c cs hx hc ih =
    let first : Bytes = (x * 256 + c) / 128 ∷ [] in
    let second : Bytes = c % 128 ∷ [] in
    ap (λ b. encode_last (encode_loop cs b)) (encode_two o x c hx hc)
    ∙ ih ((o ++ first) ++ second)
    ∙ append_assoc (o ++ first) second (digits 0 0 cs)
    ∙ append_assoc o first (second ++ digits 0 0 cs)

encode_loop-digits :
    (bytes o : Bytes) (n x : ℕ)
    → All IsByte bytes
    → n < 7
    → x < 2 ^ n
    → encode_last (encode_loop bytes (buffer o x n)) ≡ o ++ digits n x bytes
unfolding encode_loop
encode_loop-digits [] o n x hb h hx = encode_last_eq o x n h hx
encode_loop-digits (c ∷ cs) o n x (hc, hcs) h hx = elim (pending_cases n h) [
  | inl less ↦
      let y = x * 256 + c in
      let small : x < 256 = omega (arith, pow_bound n h) in
      let digit : y / 2 ^ suc n % 128 ≡ y / 2 ^ suc n =
        omega (arith, digit_small n x c less hx hc) in
      ap (λ b. encode_last (encode_loop cs b)) (encode_one o x n c less small hc)
      ∙ encode_loop-digits cs _ (suc n) (y % 2 ^ suc n) hcs (omega arith) (rest_small n y less)
      ∙ append_assoc o (y / 2 ^ suc n % 128 ∷ []) _
      ∙ ap (λ d. o ++ (d ∷ digits (suc n) (y % 2 ^ suc n) cs)) digit
      ∙ ap (λ l. o ++ l) (sym (digits_carry n x c cs less))
  | inr six ↦
      let small : x < 64 = omega (arith, pow_bound n h) in
      rw six (
        encode_flush o x c cs small hc
          (λ o'. encode_loop-digits cs o' 0 0 hcs (omega arith) (omega arith)))
]

-- `encode_bytes` of a non-empty input are its digits.
pub encode_bytes-digits :
    (c : ℕ) (cs : Bytes) → All IsByte (c ∷ cs) → encode_bytes (c ∷ cs) ≡ digits 0 0 (c ∷ cs)
unfolding encode_bytes
encode_bytes-digits c cs h = encode_loop-digits (c ∷ cs) [] 0 0 h (omega arith) (omega arith)
