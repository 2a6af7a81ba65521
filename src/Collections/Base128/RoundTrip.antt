-- ===== src/Collections/Base128/RoundTrip.antt =====
-- base128.rs: `decode_bytes` reads back what `encode_bytes` wrote, so encodings are distinct.
use casper_contract_kit.Base.{
  ℕ, zero, suc, ◌+◌, ◌-◌, ◌/◌, ◌*◌, ◌%◌, ◌^◌, ◌<◌, ◌≡◌, refl, sym, ap, ap₂, ◌∙◌, inl, inr, bit_and,
  Bytes, IsByte, All, [], ◌∷◌, ◌++◌, ltb, if◌then◌else◌, append_assoc, append-nil, arith,
}
use casper_contract_kit.Base.Bits.{mask_low}
use casper_contract_kit.Collections.Base128.{
  Buffer, ok, drain, load, start, encode_bytes, decode_loop, decode_last, decode_bytes,
}
use casper_contract_kit.Collections.Base128.Groups.{buffer, decode_first, decode_one}
use casper_contract_kit.Collections.Base128.Digits.{
  digits, digits_carry, pending_cases, digit_small, rest_small, last_small, encode_bytes-digits,
}

-- One digit of the decoder.
decode_step :
    (d : ℕ) (ds : Bytes) (b b' : Buffer)
    → d < 128
    → drain 8 0xff (load 7 d b) ≡ b'
    → decode_loop (d ∷ ds) b ≡ decode_loop ds b'
unfolding decode_loop
decode_step d ds b b' h e = rw e (ground arith)

-- `y` is the top of the byte of which the encoder holds the low `n` bits, `x`: one more digit
-- completes that byte and brings the top of the next one.
abbrev joined : ℕ → ℕ → ℕ → ℕ → ℕ
joined n y x c = y * 128 + (x * 256 + c) / 2 ^ suc n

abbrev Joins : ℕ → ℕ → ℕ → ℕ → Type 0
Joins n y x c =
    (joined n y x c / 2 ^ (7 - n) % 256 ≡ y * 2 ^ n + x)
    × (joined n y x c % 2 ^ (7 - n) < 2 ^ (8 - suc n))
    × (joined n y x c % 2 ^ (7 - n) * 2 ^ suc n + (x * 256 + c) % 2 ^ suc n ≡ c)
    × (y < 256)

joins : (n y x c : ℕ) → 0 < n → n < 6 → y < 2 ^ (8 - n) → x < 2 ^ n → c < 256 → Joins n y x c
joins zero y x c p h hy hx hc = absurd (omega arith)
joins (suc zero) y x c p h hy hx hc = omega arith
joins (suc (suc zero)) y x c p h hy hx hc = omega arith
joins (suc (suc (suc zero))) y x c p h hy hx hc = omega arith
joins (suc (suc (suc (suc zero)))) y x c p h hy hx hc = omega arith
joins (suc (suc (suc (suc (suc zero))))) y x c p h hy hx hc = omega arith
joins (suc (suc (suc (suc (suc (suc n)))))) y x c p h hy hx hc = absurd (omega arith)

-- The last digit completes the last byte and leaves zero bits.
abbrev Ends : ℕ → ℕ → ℕ → Type 0
Ends n y x =
    ((y * 128 + x * 2 ^ (7 - n)) / 2 ^ (7 - n) % 256 ≡ y * 2 ^ n + x)
    × ((y * 128 + x * 2 ^ (7 - n)) % 2 ^ (7 - n) ≡ 0)
    × (y < 256)

ends : (n y x : ℕ) → 0 < n → n < 7 → y < 2 ^ (8 - n) → x < 2 ^ n → Ends n y x
ends zero y x p h hy hx = absurd (omega arith)
ends (suc zero) y x p h hy hx = omega arith
ends (suc (suc zero)) y x p h hy hx = omega arith
ends (suc (suc (suc zero))) y x p h hy hx = omega arith
ends (suc (suc (suc (suc zero)))) y x p h hy hx = omega arith
ends (suc (suc (suc (suc (suc zero))))) y x p h hy hx = omega arith
ends (suc (suc (suc (suc (suc (suc zero)))))) y x p h hy hx = omega arith
ends (suc (suc (suc (suc (suc (suc (suc n))))))) y x p h hy hx = absurd (omega arith)

zero_padding : (o : Bytes) (k : ℕ) → k < 8 → decode_last (buffer o 0 k) ≡ ok o
unfolding decode_last
zero_padding o k h =
    let masked : bit_and 0 (2 ^ k - 1) ≡ 0 = mask_low k 0 h ∙ zero_mod k h in ground (arith, masked)
  where
    zero_mod : (k : ℕ) → k < 8 → 0 % 2 ^ k ≡ 0
    zero_mod k h = omega arith

decode_nil : (o : Bytes) (k : ℕ) → k < 8 → decode_loop [] (buffer o 0 k) ≡ ok o
unfolding decode_loop
decode_nil o k h = zero_padding o k h

decode_end :
    (o : Bytes) (n y x : ℕ)
    → 0 < n
    → n < 7
    → y < 2 ^ (8 - n)
    → x < 2 ^ n
    → decode_loop (digits n x []) (buffer o y (8 - n)) ≡ ok (o ++ ((y * 2 ^ n + x) ∷ []))
unfolding digits
decode_end o n y x p h hy hx =
    let d = x * 2 ^ (7 - n) in
    let bits : 8 - n ≡ suc (7 - n) = omega arith in
    let one_digit : (if ltb 0 n then d ∷ [] else []) ≡ d ∷ [] = ground arith in
    let (whole, left, byte) = ends n y x p h hy hx in
    let small : d < 128 = last_small n x p h hx in
    rw (one_digit, bits)
      (decode_step d [] (buffer o y (suc (7 - n))) _ small
          (decode_one o y (7 - n) d (omega arith) byte small)
        ∙ rw (whole, left) (decode_nil (o ++ ((y * 2 ^ n + x) ∷ [])) (7 - n) (omega arith)))

-- What the decoder does with the digits of `bytes`: from a byte boundary, and with the top `8 - n`
-- bits, the number `y`, of the byte whose low `n` bits are still to come.
abbrev Aligned : Bytes → Type 0
Aligned bytes = (o : Bytes) → decode_loop (digits 0 0 bytes) (buffer o 0 0) ≡ ok (o ++ bytes)

abbrev Pending : Bytes → Type 0
Pending bytes =
    (o : Bytes) (n y x : ℕ)
    → 0 < n
    → n < 7
    → y < 2 ^ (8 - n)
    → x < 2 ^ n
    → decode_loop (digits n x bytes) (buffer o y (8 - n)) ≡ ok (o ++ ((y * 2 ^ n + x) ∷ bytes))

Aligned-cons : (c : ℕ) (cs : Bytes) → c < 256 → Pending cs → Aligned (c ∷ cs)
Aligned-cons c cs hc pending o =
    let high : (0 * 256 + c) / 2 ^ 1 < 128 = omega arith in
    let value : (0 * 256 + c) / 2 ^ 1 * 2 ^ 1 + (0 * 256 + c) % 2 ^ 1 ≡ c = omega arith in
    rw (digits_carry 0 0 c cs (omega arith)) (
      decode_step _ _ (buffer o 0 0) _ high (decode_first o _ high)
      ∙ pending o 1 _ _ (omega arith) (omega arith) high (omega arith)
      ∙ ap (λ v. ok (o ++ (v ∷ cs))) value)

Pending-carry :
    (c : ℕ) (cs : Bytes)
    → c < 256
    → Pending cs
    → (o : Bytes) (n y x : ℕ) → 0 < n
    → n < 6
    → y < 2 ^ (8 - n)
    → x < 2 ^ n
    → decode_loop (digits n x (c ∷ cs)) (buffer o y (8 - n)) ≡ ok (o ++ ((y * 2 ^ n + x) ∷ c ∷ cs))
Pending-carry c cs hc pending o n y x p h hy hx =
    let d = (x * 256 + c) / 2 ^ suc n in
    let bits : 8 - n ≡ suc (7 - n) = omega arith in
    let next : 7 - n ≡ 8 - suc n = omega arith in
    let small : d < 128 = digit_small n x c h hx hc in
    let (whole, bound, value, byte) = joins n y x c p h hy hx hc in
    let w = y * 2 ^ n + x in
    let r = joined n y x c % 2 ^ (7 - n) in
    let x' = (x * 256 + c) % 2 ^ suc n in
    rw (digits_carry n x c cs h, bits)
      (decode_step d _ (buffer o y (suc (7 - n))) _ small
          (decode_one o y (7 - n) d (omega arith) byte small)
        ∙ rw whole (
            ap (λ k. decode_loop (digits (suc n) x' cs) (buffer (o ++ (w ∷ [])) r k)) next
            ∙ pending (o ++ (w ∷ [])) (suc n) r x' (omega arith) (omega arith) bound
                (rest_small n _ h)
            ∙ ap (λ v. ok ((o ++ (w ∷ [])) ++ (v ∷ cs))) value
            ∙ ap ok (append_assoc o (w ∷ []) (c ∷ cs))))

-- With six bits pending a byte is two digits, and the decoder is at a byte boundary after them.
pending_flush :
    (c : ℕ) (cs : Bytes)
    → c < 256
    → Aligned cs
    → (o : Bytes) (y x : ℕ) → y < 4
    → x < 64
    → decode_loop (digits 6 x (c ∷ cs)) (buffer o y 2) ≡ ok (o ++ ((y * 64 + x) ∷ c ∷ cs))
unfolding digits
pending_flush c cs hc aligned o y x hy hx =
    let d = (x * 256 + c) / 128 in
    let r = (y * 128 + d) % 2 in
    let first : d < 128 = omega arith in
    let second : c % 128 < 128 = omega arith in
    let whole : (y * 128 + d) / 2 % 256 ≡ y * 64 + x = omega arith in
    let last : (r * 128 + c % 128) / 1 % 256 ≡ c = omega arith in
    let none_left : (r * 128 + c % 128) % 1 ≡ 0 = omega arith in
    let out : Bytes = o ++ ((y * 64 + x) ∷ []) in
    decode_step d _ (buffer o y 2) _ first (decode_one o y 1 d (omega arith) (omega arith) first)
    ∙ ap (λ w. decode_loop (c % 128 ∷ digits 0 0 cs) (buffer (o ++ (w ∷ [])) r 1)) whole
    ∙ decode_step (c % 128) _ (buffer out r 1) _ second
        (decode_one out r 0 (c % 128) (omega arith) (omega arith) second)
    ∙ ap₂ (λ w z. decode_loop (digits 0 0 cs) (buffer (out ++ (w ∷ [])) z 0)) last none_left
    ∙ aligned (out ++ (c ∷ []))
    ∙ ap ok (append_assoc out (c ∷ []) cs ∙ append_assoc o ((y * 64 + x) ∷ []) (c ∷ cs))

Pending-cons : (c : ℕ) (cs : Bytes) → c < 256 → Aligned cs → Pending cs → Pending (c ∷ cs)
Pending-cons c cs hc aligned pending o n y x p h hy hx = elim (pending_cases n h) [
  | inl less ↦ Pending-carry c cs hc pending o n y x p less hy hx
  | inr six ↦
      let top : y < 2 ^ (8 - 6) = rw six at hy in
      let low : x < 2 ^ 6 = rw six at hx in rw six (pending_flush c cs hc aligned o y x top low)
]

decode_digits : (bytes : Bytes) → All IsByte bytes → Aligned bytes × Pending bytes
unfolding digits
decode_digits [] h = (λ o. decode_nil o 0 (omega arith) ∙ ap ok (sym (append-nil o)), decode_end)
decode_digits (c ∷ cs) (hc, hcs) =
    let (aligned, pending) = decode_digits cs hcs in
    (Aligned-cons c cs hc pending, Pending-cons c cs hc aligned pending)

-- A non-empty input has at least two digits, so the special case of one zero digit is not met.
decode_two :
    (c : ℕ) (cs : Bytes)
    → decode_bytes (digits 0 0 (c ∷ cs)) ≡ decode_loop (digits 0 0 (c ∷ cs)) start
unfolding decode_bytes digits
decode_two c [] = refl
decode_two c (d ∷ ds) = refl

-- Decoding the encoding of a byte string gives that byte string back, the empty one included.
pub decode_bytes-encode_bytes :
    (bytes : Bytes) → All IsByte bytes → decode_bytes (encode_bytes bytes) ≡ ok bytes
decode_bytes-encode_bytes [] h = unfold decode_bytes encode_bytes in refl
decode_bytes-encode_bytes (c ∷ cs) h =
    rw (encode_bytes-digits c cs h) (decode_two c cs ∙ (decode_digits (c ∷ cs) h).0 [])

-- Distinct byte strings have distinct encodings.
pub encode_bytes_injective :
    (a b : Bytes) → All IsByte a → All IsByte b → encode_bytes a ≡ encode_bytes b → a ≡ b
encode_bytes_injective a b ha hb e =
    let same : ok a ≡ ok b =
      sym (decode_bytes-encode_bytes a ha) ∙ ap decode_bytes e ∙ decode_bytes-encode_bytes b hb in
    cc
