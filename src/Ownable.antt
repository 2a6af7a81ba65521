-- ===== src/Ownable.antt =====
-- crates/contract-extras/src/ownable.rs: the owner of a contract, kept under the named key `owner`.
pub mod Rights
use casper_contract_kit.Base.{
  ℕ, Option, none, some, Outcome, ok, err, stop, pure, throw, ◌==◌, if◌then◌else◌,
}
use casper_contract_kit.Base.{◌>>=◌, ◌>>◌}
use casper_contract_kit.Casper.{Key, ApiError}
use casper_contract_kit.Host.{Host, Action, NamedKey}
use casper_contract_kit.NamedKey.{from_name, get, set, clear}
use casper_contract_kit.Utils.Caller.{get_immediate_account}

-- `OwnableError`
pub data OwnableError : Type 0 where
  unauthorized owner_missing already_paused not_paused contract_paused : OwnableError

-- `From<OwnableError> for ApiError`
abbrev pub ownable_code : OwnableError → ApiError
ownable_code unauthorized = ApiError.user 62000
ownable_code owner_missing = ApiError.user 62001
ownable_code already_paused = ApiError.user 62002
ownable_code not_paused = ApiError.user 62003
ownable_code contract_paused = ApiError.user 62004

-- `OWNER_KEY_NAME`
abbrev pub owner_key_name : NamedKey
owner_key_name = from_name "owner"

-- The arms of `get_current_owner`.
unfoldable pub owner_of_key : Option Key → Outcome ApiError ApiError (Option ℕ)
owner_of_key none = ok none
owner_of_key (some key) = elim key [
  | Key.account a ↦ ok (some a)
  | _ ↦ err ApiError.unexpected_key_variant
]

unfoldable pub owner_error : ApiError → Outcome ApiError ApiError (Option ℕ)
owner_error e = elim e [ ApiError.missing_key ↦ ok none | e' ↦ err e' ]

unfoldable pub read_owner : Action ApiError (Option Key) → Action ApiError (Option ℕ)
read_owner m w =
    let (r, w') = m w in
    elim r [ ok key ↦ (owner_of_key key, w') | err e ↦ (owner_error e, w') | stop x ↦ (stop x, w') ]

-- The arms of `ensure_owner`.
unfoldable pub check_owner : ℕ → Option ℕ → Action ApiError ℕ
check_owner caller none = throw (ownable_code owner_missing)
check_owner caller (some owner) =
    if owner == caller then pure owner else throw (ownable_code unauthorized)

module _ (host : Host) where
  unfoldable pub get_current_owner : Action ApiError (Option ℕ)
  get_current_owner = read_owner (get host owner_key_name)

  unfoldable pub ensure_owner : Action ApiError ℕ
  ensure_owner = do
    caller ← get_immediate_account host
    owner ← get_current_owner
    check_owner caller owner

  unfoldable pub transfer_ownership : ℕ → Action ApiError (Unit {0})
  transfer_ownership new_owner = do ensure_owner; set host owner_key_name (Key.account new_owner)

  unfoldable pub renounce_ownership : Action ApiError (Unit {0})
  renounce_ownership = do ensure_owner; clear host owner_key_name

  unfoldable pub current_owner : Action ApiError (Option ℕ)
  current_owner = get_current_owner
