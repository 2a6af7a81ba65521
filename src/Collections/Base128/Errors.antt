-- ===== src/Collections/Base128/Errors.antt =====
-- base128.rs: when `decode_bytes` fails, and with what.
use casper_contract_kit.Base.{ℕ, ◌≤◌, ◌≡◌, Bytes, All, [], ◌∷◌, ◌++◌, arith}
use casper_contract_kit.Collections.Base128.{
  Buffer, err, invalid_digit, drain, load, decode_loop, decode_bytes, start,
}
use casper_contract_kit.Collections.Base128.Shape.{IsAscii}

decode_loop_invalid :
    (front : Bytes) (d : ℕ) (rest : Bytes) (b : Buffer)
    → All IsAscii front
    → 128 ≤ d
    → decode_loop (front ++ (d ∷ rest)) b ≡ err (invalid_digit d)
unfolding decode_loop
decode_loop_invalid [] d rest b h hd = ground arith
decode_loop_invalid (c ∷ front) d rest b (hc, h) hd =
    ground (arith, decode_loop_invalid front d rest (drain 8 0xff (load 7 c b)) h hd)

-- If the first character above 0x7f of an input follows only ASCII characters, `decode_bytes`
-- reports that character, wherever it stands.
pub decode_bytes_invalid :
    (front : Bytes) (d : ℕ) (rest : Bytes)
    → All IsAscii front
    → 128 ≤ d
    → decode_bytes (front ++ (d ∷ rest)) ≡ err (invalid_digit d)
decode_bytes_invalid [] d [] h hd =
    unfold decode_bytes in ground (arith, decode_loop_invalid [] d [] start h hd)
decode_bytes_invalid [] d (r ∷ rest) h hd =
    unfold decode_bytes in decode_loop_invalid [] d (r ∷ rest) start h hd
decode_bytes_invalid (c ∷ []) d rest h hd =
    unfold decode_bytes in decode_loop_invalid (c ∷ []) d rest start h hd
decode_bytes_invalid (c ∷ c' ∷ front) d rest h hd =
    unfold decode_bytes in decode_loop_invalid (c ∷ c' ∷ front) d rest start h hd
