-- ===== src/Cep18/Badge.antt =====
-- crates/contract-extras/src/cep18/security.rs: the badges and their serialization.
use casper_contract_kit.Base.{
  ℕ, ◌≡◌, ◌≢◌, refl, Bool, false, Bytes, Option, none, some, List, [], ◌∷◌, ◌++◌, ◌==◌, ◌||◌,
  if◌then◌else◌,
}
use casper_contract_kit.Casper.{ApiError}
use casper_contract_kit.Casper.Codec.{Codec, Lossless}

-- `SecurityBadge`; its last variant is `None`.
pub data SecurityBadge : Type 0 where
  admin minter none_badge : SecurityBadge

abbrev pub badge_byte : SecurityBadge → ℕ
badge_byte admin = 0
badge_byte minter = 1
badge_byte none_badge = 2

-- `==` on badges, and `Vec::contains`
abbrev pub badge_eq : SecurityBadge → SecurityBadge → Bool
badge_eq a b = badge_byte a == badge_byte b

unfoldable pub contains : List SecurityBadge → SecurityBadge → Bool
contains [] b = false
contains (a ∷ list) b = badge_eq a b || contains list b

-- What `FromBytes::from_bytes` returns: the value with the bytes that are left, an error, or the
-- panic of an index out of range.
pub data Parsed (T : Type 0) : Type 0 where
  ok : T → Bytes → Parsed T
  left_over_bytes : Parsed T
  out_of_range : Parsed T

unfoldable pub to_bytes : SecurityBadge → Bytes
to_bytes b = badge_byte b ∷ []

unfoldable pub serialized_length : SecurityBadge → ℕ
serialized_length b = 1

-- `from_bytes` answers that no bytes are left, whatever follows the first.
unfoldable pub from_bytes : Bytes → Parsed SecurityBadge
from_bytes [] = out_of_range
from_bytes (b ∷ rest) =
    if b == 0
    then ok admin []
    else if b == 1
    then ok minter []
    else if b == 2
    then ok none_badge []
    else left_over_bytes

-- `bytesrepr::deserialize` over it: a value with nothing left. A panic gives no value.
abbrev pub deserialize : Parsed SecurityBadge → Option SecurityBadge
deserialize (ok b []) = some b
deserialize (ok b (x ∷ rest)) = none
deserialize left_over_bytes = none
deserialize out_of_range = none

abbrev pub badge_codec : Codec SecurityBadge
badge_codec = record {
  to_bytes = to_bytes;
  from_bytes = λ bytes. deserialize (from_bytes bytes);
  refusal = λ bytes. ApiError.left_over_bytes;
}

-- A stored badge is read back, from as many bytes as `serialized_length` says.
pub badge_codec-Lossless : (b : SecurityBadge) → Lossless badge_codec b
unfolding to_bytes from_bytes
badge_codec-Lossless admin = refl
badge_codec-Lossless minter = refl
badge_codec-Lossless none_badge = refl

-- Whatever bytes follow a serialized badge, parsing gives the badge and drops those bytes: the
-- parser does not hand them back, as a value inside a longer one (such as the map of
-- `ChangeSecurity`) needs.
pub from_bytes_drops_rest :
    (b : SecurityBadge) (x : ℕ) (rest : Bytes)
    → (from_bytes (to_bytes b ++ (x ∷ rest)) ≡ ok b [])
      × (from_bytes (to_bytes b ++ (x ∷ rest)) ≢ ok b (x ∷ rest))
unfolding to_bytes from_bytes
from_bytes_drops_rest admin x rest = (refl, λ e. cc)
from_bytes_drops_rest minter x rest = (refl, λ e. cc)
from_bytes_drops_rest none_badge x rest = (refl, λ e. cc)
