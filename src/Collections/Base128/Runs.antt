-- ===== src/Collections/Base128/Runs.antt =====
-- Concrete runs of base128, among them those of the unit tests in base128.rs.
use casper_contract_kit.Base.{◌≡◌, refl, [], ◌∷◌, Bytes}
use casper_contract_kit.Collections.Base128.{
  ok, err, non_zero_padding, invalid_digit, encode_bytes, encode_loop, encode_last, take_group,
  take_groups, decode_bytes, decode_loop,
}

abbrev blob : Bytes
blob = 0 ∷ 1 ∷ 2 ∷ 200 ∷ 255 ∷ []

encode_blob : encode_bytes blob ≡ 0 ∷ 0 ∷ 32 ∷ 44 ∷ 71 ∷ 124 ∷ []
unfolding encode_bytes encode_loop encode_last take_groups take_group
encode_blob = refl

decode_blob : decode_bytes (encode_bytes blob) ≡ ok blob
unfolding encode_bytes encode_loop encode_last take_groups take_group decode_bytes decode_loop
decode_blob = refl

decode_padding : decode_bytes (127 ∷ 127 ∷ []) ≡ err non_zero_padding
unfolding take_groups take_group decode_bytes decode_loop
decode_padding = refl

decode_digit : decode_bytes (5 ∷ 128 ∷ []) ≡ err (invalid_digit 128)
unfolding take_groups take_group decode_bytes decode_loop
decode_digit = refl
