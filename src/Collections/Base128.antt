-- ===== src/Collections/Base128.antt =====
-- crates/contract-api/src/collections/base128.rs. A byte slice and the bytes of a string are lists
-- of numbers below 256; `bit_buffer` is a u32, so a left shift keeps its `% 2 ^ 32`.
pub mod Digits
pub mod RoundTrip
pub mod Loops
pub mod Groups
pub mod Shape
pub mod Errors
mod Runs
use casper_contract_kit.Base.{
  ℕ, zero, suc, ◌+◌, ◌-◌, ◌/◌, ◌*◌, ◌%◌, ◌^◌, bit_and, bit_or, Bytes, List, [], ◌∷◌, ◌++◌, ltb,
  ◌==◌, if◌then◌else◌,
}

pub data DecodeError : Type 0 where
  empty_input : DecodeError
  invalid_digit : ℕ → DecodeError
  overflow : DecodeError
  non_zero_padding : DecodeError

pub data Decoded : Type 0 where
  ok : Bytes → Decoded
  err : DecodeError → Decoded

-- What the loops of both functions carry: the output so far, `bit_buffer`, `bits_in_buffer`.
pub record Buffer : Type 0 where
  pub output : Bytes
  pub bit_buffer : ℕ
  pub bits_in_buffer : ℕ

-- `x << k` on a u32
abbrev pub shl : ℕ → ℕ → ℕ
shl x k = x * 2 ^ k % 2 ^ 32

-- The bits below position `bits`, as the code clears the rest.
abbrev pub keep_low : ℕ → ℕ → ℕ
keep_low bits x = if bits == 0 then 0 else bit_and x (2 ^ bits - 1)

-- One round of the inner `while`: takes the top `width` bits out of the buffer.
unfoldable pub take_group : ℕ → ℕ → Buffer → Buffer
take_group width mask b =
    let bits = b.bits_in_buffer - width in
    record {
      output = b.output ++ (bit_and (b.bit_buffer / 2 ^ bits) mask % 256 ∷ []);
      bit_buffer = keep_low bits b.bit_buffer;
      bits_in_buffer = bits;
    }

-- `while bits_in_buffer >= width`: every round takes bits, so `bits_in_buffer` rounds are enough.
unfoldable pub take_groups : ℕ → ℕ → ℕ → Buffer → Buffer
take_groups zero width mask b = b
take_groups (suc fuel) width mask b =
    let more = take_groups fuel width mask (take_group width mask b) in
    if ltb b.bits_in_buffer width then b else more

abbrev pub drain : ℕ → ℕ → Buffer → Buffer
drain width mask b = take_groups b.bits_in_buffer width mask b

abbrev pub load : ℕ → ℕ → Buffer → Buffer
load width unit b = record {
  output = b.output;
  bit_buffer = bit_or (shl b.bit_buffer width) unit;
  bits_in_buffer = b.bits_in_buffer + width;
}

abbrev pub start : Buffer
start = record { output = []; bit_buffer = 0; bits_in_buffer = 0 }

-- The loop of `encode_bytes` over the bytes.
unfoldable pub encode_loop : Bytes → Buffer → Buffer
encode_loop [] b = b
encode_loop (byte ∷ bytes) b = encode_loop bytes (drain 7 0x7f (load 8 byte b))

-- The last, partial digit, padded with zeros.
unfoldable pub encode_last : Buffer → Bytes
encode_last b =
    if ltb 0 b.bits_in_buffer
    then b.output ++ (bit_and (shl b.bit_buffer (7 - b.bits_in_buffer) % 256) 0x7f ∷ [])
    else b.output

unfoldable pub encode_bytes : Bytes → Bytes
encode_bytes [] = 0 ∷ []
encode_bytes (byte ∷ bytes) = encode_last (encode_loop (byte ∷ bytes) start)

-- The padding check after the loop of `decode_bytes`.
unfoldable pub decode_last : Buffer → Decoded
decode_last b =
    if ltb 0 b.bits_in_buffer
    then (if bit_and b.bit_buffer (2 ^ b.bits_in_buffer - 1) == 0
        then ok b.output
        else err non_zero_padding)
    else ok b.output

-- The loop of `decode_bytes` over the digits.
unfoldable pub decode_loop : Bytes → Buffer → Decoded
unfolding decode_last
decode_loop [] b = decode_last b
decode_loop (digit ∷ digits) b =
    let rest = decode_loop digits (drain 8 0xff (load 7 digit b)) in
    if ltb 0x7f digit then err (invalid_digit digit) else rest

unfoldable pub decode_bytes : Bytes → Decoded
decode_bytes [] = err empty_input
decode_bytes (digit ∷ []) = if digit == 0 then ok [] else decode_loop (digit ∷ []) start
decode_bytes (digit ∷ next ∷ digits) = decode_loop (digit ∷ next ∷ digits) start
