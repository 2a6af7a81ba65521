-- ===== src/Casper/Codec.antt =====
-- `ToBytes` and `FromBytes` of `bytesrepr`, for a type that the program stores.
use casper_contract_kit.Base.{Bytes, Option, some, ◌≡◌}
use casper_contract_kit.Casper.{ApiError}

-- `from_bytes` is `bytesrepr::deserialize`, which takes the whole input or fails; `refusal` is the
-- error that it fails with, as the ApiError that `?` makes of it.
pub record Codec (T : Type 0) : Type 0 where
  pub to_bytes : T → Bytes
  pub from_bytes : Bytes → Option T
  pub refusal : Bytes → ApiError

-- The documented round trip, for one value.
abbrev pub Lossless : {T : Type 0} → Codec T → T → Type 0
Lossless c x = c.from_bytes (c.to_bytes x) ≡ some x
