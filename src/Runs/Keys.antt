-- ===== src/Runs/Keys.antt =====
-- Runs of the keys of collections.
use casper_contract_kit.Base.{
  ℕ, ◌≡◌, ◌≢◌, refl, Bytes, [], ◌∷◌, All, IsByte, if◌then◌else◌, arith, ◌<◌, ltb,
}
use casper_contract_kit.Collections.Base128.{Buffer, take_group, drain}
use casper_contract_kit.Collections.Base128.Loops.{drain_terminates}
use casper_contract_kit.Collections.Base128.{ok, encode_bytes, decode_bytes}
use casper_contract_kit.Collections.Base128.RoundTrip.{decode_bytes-encode_bytes}
use casper_contract_kit.Collections.DictionaryKey.{str_key, pair_key}
use casper_contract_kit.Collections.DictionaryKey.Fixed.{u32_key-IsFixed, pair_injective}
use casper_contract_kit.Collections.DictionaryKey.Strings.{str_pair_collides}

abbrev blob : Bytes
blob = 0 ∷ 200 ∷ 255 ∷ []

blob-IsByte : All IsByte blob
blob-IsByte = (omega arith, (omega arith, (omega arith, tt)))

decode_bytes-encode_bytes_example : decode_bytes (encode_bytes blob) ≡ ok blob
decode_bytes-encode_bytes_example = decode_bytes-encode_bytes blob blob-IsByte

pair_injective_example : ◌≡◌ {A = ℕ × ℕ} (3, 4) (3, 4)
pair_injective_example =
    pair_injective u32_key-IsFixed u32_key-IsFixed (3, 4) (3, 4) (omega arith, omega arith)
      (omega arith, omega arith) refl

-- "1:2" with "3", and "1" with "2:3"
str_pair_collides_example :
    ((pair_key str_key str_key).dictionary_key ((49 ∷ 58 ∷ 50 ∷ []), (51 ∷ []))
      ≡ (pair_key str_key str_key).dictionary_key ((49 ∷ []), (50 ∷ 58 ∷ 51 ∷ [])))
    × (◌≢◌ {A = Bytes × Bytes} ((49 ∷ 58 ∷ 50 ∷ []), (51 ∷ [])) ((49 ∷ []), (50 ∷ 58 ∷ 51 ∷ [])))
str_pair_collides_example = str_pair_collides (49 ∷ []) (50 ∷ []) (51 ∷ [])

-- A buffer with two digits and two bits.
abbrev full : Buffer
full = record { output = []; bit_buffer = 0xabcd; bits_in_buffer = 16 }

drain_terminates_example :
    (drain 7 0x7f full ≡ (if ltb 16 7 then full else drain 7 0x7f (take_group 7 0x7f full)))
    × ((drain 7 0x7f full).bits_in_buffer < 7)
drain_terminates_example = drain_terminates 7 0x7f (omega arith) full
