-- ===== src/Pausable.antt =====
-- crates/contract-extras/src/pausable.rs: the flag under the named key `paused`.
pub mod Flag
use casper_contract_kit.Base.{Bool, true, false, not, pure, err_if, unwrap_or}
use casper_contract_kit.Base.{◌>>=◌, ◌>>◌}
use casper_contract_kit.Casper.{ApiError}
use casper_contract_kit.Casper.Codec.{Codec}
use casper_contract_kit.Host.{Host, Action, NamedKey}
use casper_contract_kit.NamedKey.{from_name, read, write}
use casper_contract_kit.Ownable.{ensure_owner}

-- `PausableError`
pub data PausableError : Type 0 where
  not_paused already_paused contract_paused : PausableError

abbrev pub pausable_code : PausableError → ApiError
pausable_code not_paused = ApiError.user 41000
pausable_code already_paused = ApiError.user 41001
pausable_code contract_paused = ApiError.user 41002

-- `PAUSED_NAMED_KEY`, which `PAUSED_TUREF` reads and writes
abbrev pub paused_named_key : NamedKey
paused_named_key = from_name "paused"

module _ (host : Host) (bool_codec : Codec Bool) where
  -- `PAUSED_TUREF.read()?.unwrap_or(false)`
  unfoldable pub read_flag : Action ApiError Bool
  read_flag = do flag ← read host bool_codec paused_named_key; pure (unwrap_or false flag)

  unfoldable pub pause : Action ApiError (Unit {0})
  pause = do
    ensure_owner host
    paused ← read_flag
    err_if paused (pausable_code already_paused)
    write host bool_codec paused_named_key true

  unfoldable pub unpause : Action ApiError (Unit {0})
  unpause = do
    ensure_owner host
    paused ← read_flag
    err_if (not paused) (pausable_code not_paused)
    write host bool_codec paused_named_key false

  unfoldable pub is_paused : Action ApiError Bool
  is_paused = read_flag

  unfoldable pub require_unpaused : Action ApiError (Unit {0})
  require_unpaused = do paused ← read_flag; err_if paused (pausable_code contract_paused)
