-- ===== src/Collections/Base128/Shape.antt =====
-- base128.rs: the size of an encoding, and that it is ASCII (what `String::from_utf8_unchecked` needs).
use casper_contract_kit.Base.{
  ℕ, zero, suc, ◌+◌, ◌/◌, ◌*◌, ◌%◌, ◌^◌, ◌<◌, ◌≡◌, refl, sym, ap, ◌∙◌, inl, inr, Bytes, IsByte, All,
  [], ◌∷◌, length, ◌==◌, if◌then◌else◌, arith,
}
use casper_contract_kit.Collections.Base128.{encode_bytes}
use casper_contract_kit.Collections.Base128.Digits.{
  digits, digits_carry, digits_flush, digits_end, pending_cases, digit_small, rest_small,
  last_small, encode_bytes-digits,
}

abbrev pub IsAscii : ℕ → Type 0
IsAscii d = d < 128

flush-IsAscii :
    (n x c : ℕ) (cs : Bytes)
    → n ≡ 6
    → x < 2 ^ n
    → c < 256
    → All IsAscii (digits 0 0 cs)
    → All IsAscii (digits n x (c ∷ cs))
flush-IsAscii n x c cs six hx hc rest =
    let low : x < 64 = rw six at hx in
    let high : IsAscii ((x * 256 + c) / 128) = omega arith in
    let next : IsAscii (c % 128) = omega arith in
    rw (six, digits_flush x c cs) ((high, (next, rest)))

digits-IsAscii :
    (bytes : Bytes) (n x : ℕ)
    → All IsByte bytes
    → n < 7
    → x < 2 ^ n
    → All IsAscii (digits n x bytes)
digits-IsAscii [] zero x hb h hx = unfold digits in tt
digits-IsAscii [] (suc n) x hb h hx =
    rw (digits_end (suc n) x (omega arith)) ((last_small (suc n) x (omega arith) h hx, tt))
digits-IsAscii (c ∷ cs) n x (hc, hcs) h hx = elim (pending_cases n h) [
  | inl less ↦ rw (digits_carry n x c cs less) (
      (
        digit_small n x c less hx hc,
        digits-IsAscii cs (suc n) _ hcs (omega arith) (rest_small n _ less),
      ))
  | inr six ↦
      flush-IsAscii n x c cs six hx hc (digits-IsAscii cs 0 0 hcs (omega arith) (omega arith))
]

length-digits :
    (bytes : Bytes) (n x : ℕ) → n < 7 → length (digits n x bytes) ≡ (8 * length bytes + n + 6) / 7
length-digits [] zero x h = unfold digits in omega arith
length-digits [] (suc n) x h = rw (digits_end (suc n) x (omega arith)) (omega arith)
length-digits (c ∷ cs) n x h = elim (pending_cases n h) [
  | inl less ↦
      rw (digits_carry n x c cs less)
        (omega (arith, length-digits cs (suc n) ((x * 256 + c) % 2 ^ suc n) (omega arith)))
  | inr six ↦ rw (six, digits_flush x c cs) (omega (arith, length-digits cs 0 0 (omega arith)))
]

-- An encoding is a string of ASCII characters; it has one character for each seven bits, rounded
-- up, and one character for no bytes.
pub encode_bytes_shape :
    (bytes : Bytes)
    → All IsByte bytes
    → All IsAscii (encode_bytes bytes)
      × (length (encode_bytes bytes)
          ≡ (if length bytes == 0 then 1 else (8 * length bytes + 6) / 7))
encode_bytes_shape [] h = unfold encode_bytes in (omega arith, refl)
encode_bytes_shape (c ∷ cs) h = rw (encode_bytes-digits c cs h) (
    (
      digits-IsAscii (c ∷ cs) 0 0 h (omega arith) (omega arith),
      ground (arith, length-digits (c ∷ cs) 0 0 (omega arith)),
    ))

pub encode_bytes-IsAscii : (bytes : Bytes) → All IsByte bytes → All IsAscii (encode_bytes bytes)
encode_bytes-IsAscii bytes h = (encode_bytes_shape bytes h).0

-- Inputs of one length have encodings of one length.
pub length-encode_bytes :
    (a b : Bytes)
    → All IsByte a
    → All IsByte b
    → length a ≡ length b
    → length (encode_bytes a) ≡ length (encode_bytes b)
length-encode_bytes a b ha hb e =
    (encode_bytes_shape a ha).1
    ∙ ap (λ n. if n == 0 then 1 else (8 * n + 6) / 7) e
    ∙ sym (encode_bytes_shape b hb).1
