-- ===== src/Collections/Base128/Groups.antt =====
-- One round of each loop of base128.rs in plain arithmetic, and the digits of a whole byte string.
use casper_contract_kit.Base.{
  ℕ, zero, suc, ◌+◌, ◌-◌, ◌/◌, ◌*◌, ◌%◌, ◌^◌, ◌≤◌, ◌<◌, ◌≡◌, refl, ap, ◌∙◌, bit_or, Bytes, [], ◌∷◌,
  ◌++◌, arith,
}
use casper_contract_kit.Base.Bits.{bit_and-127, bit_and-255, mask_low, or_disjoint}
use casper_contract_kit.Collections.Base128.{
  Buffer, shl, keep_low, take_group, take_groups, drain, load,
}

abbrev pub buffer : Bytes → ℕ → ℕ → Buffer
buffer o x n = record { output = o; bit_buffer = x; bits_in_buffer = n }

keep_low_eq : (k x : ℕ) → k < 8 → keep_low k x ≡ x % 2 ^ k
keep_low_eq zero x h = omega arith
keep_low_eq (suc k) x h = ground (arith, mask_low (suc k) x)

-- A buffer of at most eight bits takes in a unit of `w` bits without losing any.
load_eq : (w x unit : ℕ) → w ≤ 8 → x < 256 → unit < 2 ^ w → bit_or (shl x w) unit ≡ x * 2 ^ w + unit
load_eq w x unit hw hx hu =
    let fits : x * 2 ^ w % 2 ^ 32 ≡ x * 2 ^ w = small w hw in
    ap (λ t. bit_or t unit) fits ∙ or_disjoint w x unit hu
  where
    small : (k : ℕ) → k ≤ 8 → x * 2 ^ k % 2 ^ 32 ≡ x * 2 ^ k
    small zero h = omega arith
    small (suc zero) h = omega arith
    small (suc (suc zero)) h = omega arith
    small (suc (suc (suc zero))) h = omega arith
    small (suc (suc (suc (suc zero)))) h = omega arith
    small (suc (suc (suc (suc (suc zero))))) h = omega arith
    small (suc (suc (suc (suc (suc (suc zero)))))) h = omega arith
    small (suc (suc (suc (suc (suc (suc (suc zero))))))) h = omega arith
    small (suc (suc (suc (suc (suc (suc (suc (suc zero)))))))) h = omega arith
    small (suc (suc (suc (suc (suc (suc (suc (suc (suc k))))))))) h = absurd (omega arith)

-- Taking the top digit, or the top byte, leaves `k` bits.
take_digit_eq :
    (o : Bytes) (x k : ℕ)
    → k < 8
    → take_group 7 0x7f (buffer o x (k + 7)) ≡ buffer (o ++ (x / 2 ^ k % 128 ∷ [])) (x % 2 ^ k) k
unfolding take_group
take_digit_eq o x k h =
    let left : k + 7 - 7 ≡ k = omega arith in
    rw (left, keep_low_eq k x h, bit_and-127)
      (ap (λ d. buffer (o ++ (d ∷ [])) (x % 2 ^ k) k) (omega arith))

take_byte_eq :
    (o : Bytes) (x k : ℕ)
    → k < 8
    → take_group 8 0xff (buffer o x (k + 8)) ≡ buffer (o ++ (x / 2 ^ k % 256 ∷ [])) (x % 2 ^ k) k
unfolding take_group
take_byte_eq o x k h =
    let left : k + 8 - 8 ≡ k = omega arith in
    rw (left, keep_low_eq k x h, bit_and-255)
      (ap (λ d. buffer (o ++ (d ∷ [])) (x % 2 ^ k) k) (omega arith))

-- The inner `while` runs a round while there are bits for one, and its fuel suffices.
module _ (width mask : ℕ) where
  take_groups_done :
      (fuel : ℕ) (b : Buffer) → b.bits_in_buffer < width → take_groups fuel width mask b ≡ b
  unfolding take_groups
  take_groups_done zero b h = refl
  take_groups_done (suc fuel) b h = ground arith

  take_groups_more :
      (fuel : ℕ) (b : Buffer)
      → width ≤ b.bits_in_buffer
      → take_groups (suc fuel) width mask b ≡ take_groups fuel width mask (take_group width mask b)
  unfolding take_groups
  take_groups_more fuel b h = ground arith

  pub drain_none : (b : Buffer) → b.bits_in_buffer < width → drain width mask b ≡ b
  drain_none b h = take_groups_done b.bits_in_buffer b h

  take_groups_one :
      (fuel : ℕ) (b b' : Buffer)
      → 0 < fuel
      → width ≤ b.bits_in_buffer
      → take_group width mask b ≡ b'
      → b'.bits_in_buffer < width
      → take_groups fuel width mask b ≡ b'
  take_groups_one zero b b' f h e d = absurd (omega arith)
  take_groups_one (suc fuel) b b' f h e d =
      take_groups_more fuel b h ∙ ap (take_groups fuel width mask) e ∙ take_groups_done fuel b' d

  take_groups_two :
      (fuel : ℕ) (b b' b'' : Buffer)
      → 1 < fuel
      → width ≤ b.bits_in_buffer
      → take_group width mask b ≡ b'
      → width ≤ b'.bits_in_buffer
      → take_group width mask b' ≡ b''
      → b''.bits_in_buffer < width
      → take_groups fuel width mask b ≡ b''
  take_groups_two zero b b' b'' f h e h' e' d = absurd (omega arith)
  take_groups_two (suc fuel) b b' b'' f h e h' e' d =
      take_groups_more fuel b h
      ∙ ap (take_groups fuel width mask) e
      ∙ take_groups_one fuel b' b'' (omega arith) h' e' d

-- `encode_bytes` on one byte: `n` bits of the byte before are pending.
pub encode_one :
    (o : Bytes) (x n c : ℕ)
    → n < 6
    → x < 256
    → c < 256
    → drain 7 0x7f (load 8 c (buffer o x n))
      ≡ buffer (o ++ ((x * 256 + c) / 2 ^ suc n % 128 ∷ [])) ((x * 256 + c) % 2 ^ suc n) (suc n)
encode_one o x n c h hx hc = rw (load_eq 8 x c (omega arith) hx hc) (
    take_groups_one 7 0x7f (n + 8) _ _ (omega arith) (omega arith)
      (ap (λ k. take_group 7 0x7f (buffer o (x * 256 + c) k)) bits
        ∙ take_digit_eq o (x * 256 + c) (suc n) (omega arith))
      (omega arith))
  where
    bits : n + 8 ≡ suc n + 7
    bits = omega arith

pub encode_two :
    (o : Bytes) (x c : ℕ)
    → x < 64
    → c < 256
    → drain 7 0x7f (load 8 c (buffer o x 6))
      ≡ buffer ((o ++ ((x * 256 + c) / 128 ∷ [])) ++ (c % 128 ∷ [])) 0 0
encode_two o x c hx hc = rw (load_eq 8 x c (omega arith) (omega arith) hc) (
    take_groups_two 7 0x7f 14 _ _ _ (omega arith) (omega arith)
      (take_digit_eq o (x * 256 + c) 7 (omega arith)) (omega arith)
      (take_digit_eq _ ((x * 256 + c) % 128) 0 (omega arith)) (omega arith)
    ∙ same)
  where
    same :
        buffer
          ((o ++ ((x * 256 + c) / 2 ^ 7 % 128 ∷ [])) ++ ((x * 256 + c) % 128 / 2 ^ 0 % 128 ∷ []))
          ((x * 256 + c) % 128 % 2 ^ 0)
          0
        ≡ buffer ((o ++ ((x * 256 + c) / 128 ∷ [])) ++ (c % 128 ∷ [])) 0 0
    same = ground arith

-- `decode_bytes` on one digit: nothing pending, or `k + 1` bits of the next byte.
pub decode_first :
    (o : Bytes) (d : ℕ) → d < 128 → drain 8 0xff (load 7 d (buffer o 0 0)) ≡ buffer o d 7
decode_first o d h =
    rw (load_eq 7 0 d (omega arith) (omega arith) h)
      (drain_none 8 0xff _ (omega arith) ∙ ap (λ x. buffer o x 7) (omega arith))

pub decode_one :
    (o : Bytes) (x k d : ℕ)
    → k < 7
    → x < 256
    → d < 128
    → drain 8 0xff (load 7 d (buffer o x (suc k)))
      ≡ buffer (o ++ ((x * 128 + d) / 2 ^ k % 256 ∷ [])) ((x * 128 + d) % 2 ^ k) k
decode_one o x k d h hx hd = rw (load_eq 7 x d (omega arith) hx hd) (
    take_groups_one 8 0xff (suc k + 7) _ _ (omega arith) (omega arith)
      (ap (λ k. take_group 8 0xff (buffer o (x * 128 + d) k)) bits
        ∙ take_byte_eq o (x * 128 + d) k (omega arith))
      (omega arith))
  where
    bits : suc k + 7 ≡ k + 8
    bits = omega arith
