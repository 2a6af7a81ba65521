-- ===== src/Cep18/Modalities.antt =====
-- crates/contract-extras/src/cep18/modalities.rs: the two configuration bytes.
use casper_contract_kit.Base.{ℕ, ◌<◌, ◌≡◌, ◌↔◌, Bool, ◌==◌, if◌then◌else◌, arith}
use casper_contract_kit.Cep18.Error.{Cep18Error, invalid_events_mode, invalid_enable_mb_flag}

pub data EventsMode : Type 0 where
  no_events ces native native_bytes : EventsMode

pub data MintBurn : Type 0 where
  disabled mint_and_burn : MintBurn

-- `TryFrom<u8>`
pub data TryFrom (A : Type 0) : Type 0 where
  ok : A → TryFrom A
  err : Cep18Error → TryFrom A

unfoldable pub events_mode_try_from : ℕ → TryFrom EventsMode
events_mode_try_from value =
    if value == 0
    then TryFrom.ok no_events
    else if value == 1
    then TryFrom.ok ces
    else if value == 2
    then TryFrom.ok native
    else if value == 3
    then TryFrom.ok native_bytes
    else TryFrom.err invalid_events_mode

unfoldable pub mint_burn_try_from : ℕ → TryFrom MintBurn
mint_burn_try_from value =
    if value == 0
    then TryFrom.ok disabled
    else if value == 1
    then TryFrom.ok mint_and_burn
    else TryFrom.err invalid_enable_mb_flag

-- `mode as u8`
abbrev pub events_mode_byte : EventsMode → ℕ
events_mode_byte no_events = 0
events_mode_byte ces = 1
events_mode_byte native = 2
events_mode_byte native_bytes = 3

abbrev pub mint_burn_byte : MintBurn → ℕ
mint_burn_byte disabled = 0
mint_burn_byte mint_and_burn = 1

-- `==` on modes
abbrev pub mode_eq : EventsMode → EventsMode → Bool
mode_eq a b = events_mode_byte a == events_mode_byte b

-- A byte is accepted exactly if it is the byte of a mode, which is then the result; any other byte is
-- refused with the error of its field.
pub try_from_exact :
    (value : ℕ) (mode : EventsMode) (flag : MintBurn)
    → ((events_mode_try_from value ≡ TryFrom.ok mode) ↔ (value ≡ events_mode_byte mode))
      × ((events_mode_try_from value ≡ TryFrom.err invalid_events_mode) ↔ (3 < value))
      × ((mint_burn_try_from value ≡ TryFrom.ok flag) ↔ (value ≡ mint_burn_byte flag))
      × ((mint_burn_try_from value ≡ TryFrom.err invalid_enable_mb_flag) ↔ (1 < value))
unfolding events_mode_try_from mint_burn_try_from
try_from_exact value mode flag = (
  (λ h. ground arith, λ h. ground arith),
  (λ h. ground arith, λ h. ground arith),
  (λ h. ground arith, λ h. ground arith),
  (λ h. ground arith, λ h. ground arith),
)
