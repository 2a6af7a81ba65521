-- ===== src/Utils/Caller.antt =====
-- The caller of an entry point: utils.rs of crates/contract-api, with its errors of error.rs.
use casper_contract_kit.Base.{
  ℕ, Option, none, some, List, [], ◌∷◌, ◌==◌, if◌then◌else◌, Outcome, ok, err, stop, pure, throw,
  ok_or, some_or_revert, err_if, map_err, unwrap_or_revert,
}
use casper_contract_kit.Base.{◌>>=◌, ◌>>◌}
use casper_contract_kit.Casper.{ApiError, EntityAddr}
use casper_contract_kit.Host.{Host, Action, CallerInfo, CallerAction, immediate, ffi}
use casper_contract_kit.Utils.{read_host_buffer}

-- `UniversalError`
pub data UniversalError : Type 0 where
  panic invalid_context uref_already_initialized : UniversalError
  other : ApiError → UniversalError

-- `From<UniversalError> for ApiError`; the discriminants count from `USER_BASE`.
abbrev pub to_api_error : UniversalError → ApiError
to_api_error panic = ApiError.user 56900
to_api_error invalid_context = ApiError.user 56901
to_api_error uref_already_initialized = ApiError.user 56902
to_api_error (other e) = e

-- The one frame that the host answered.
unfoldable pub only_frame : List CallerInfo → Action UniversalError CallerInfo
only_frame [] = throw (other ApiError.unhandled)
only_frame (frame ∷ []) = pure frame
only_frame (frame ∷ next ∷ rest) = throw (other ApiError.unhandled)

-- The entity that a frame names, by its kind.
unfoldable pub frame_entity : CallerInfo → Action UniversalError (Option EntityAddr)
frame_entity frame =
    if frame.kind == 0
    then (do
      account_hash ← ok_or frame.account_hash invalid_context
      pure (some (EntityAddr.account account_hash)))
    else if frame.kind == 3
    then (do entity_addr ← ok_or frame.entity invalid_context; pure (some entity_addr))
    else if frame.kind == 2
    then throw invalid_context
    else if frame.kind == 4
    then (do
      contract_hash ← ok_or frame.contract invalid_context
      pure (some (EntityAddr.smart_contract contract_hash)))
    else throw invalid_context

-- `Err(UniversalError::Other(ApiError::Unhandled)) => return Ok(None)`
unfoldable pub frame_error : UniversalError → Outcome ApiError UniversalError (Option CallerInfo)
frame_error panic = err panic
frame_error invalid_context = err invalid_context
frame_error uref_already_initialized = err uref_already_initialized
frame_error (other e) = elim e [ ApiError.unhandled ↦ ok none | e' ↦ err (other e') ]

unfoldable pub or_no_frame :
    Action UniversalError CallerInfo → Action UniversalError (Option CallerInfo)
or_no_frame m w =
    let (r, w') = m w in
    elim r [
      | ok frame ↦ (ok (some frame), w')
      | err e ↦ (frame_error e, w')
      | stop x ↦ (stop x, w')
    ]

-- The account among the entities.
unfoldable pub account_of : Option EntityAddr → Action ApiError ℕ
account_of none = throw (to_api_error invalid_context)
account_of (some (EntityAddr.account a)) = pure a
account_of (some (EntityAddr.system a)) = throw (to_api_error invalid_context)
account_of (some (EntityAddr.smart_contract a)) = throw (to_api_error invalid_context)

module _ (host : Host) where
  unfoldable pub get_initiator_or_immediate : CallerAction → Action UniversalError CallerInfo
  get_initiator_or_immediate action = do
    sizes ← map_err other (ffi (host.load_caller_information action))
    err_if (sizes.0 == 0) (other ApiError.invalid_caller_info_request)
    bytes ← unwrap_or_revert (λ e. e) (read_host_buffer host sizes.1)
    callers ← some_or_revert (host.callers_from_bytes bytes) (host.callers_refusal bytes)
    only_frame callers

  unfoldable pub entity_of_frame : Option CallerInfo → Action UniversalError (Option EntityAddr)
  entity_of_frame none = pure none
  entity_of_frame (some frame) = frame_entity frame

  unfoldable pub get_immediate_entity_addr : Action UniversalError (Option EntityAddr)
  get_immediate_entity_addr = do
    frame ← or_no_frame (get_initiator_or_immediate immediate)
    entity_of_frame frame

  unfoldable pub get_immediate_account : Action ApiError ℕ
  get_immediate_account = do
    entity ← map_err to_api_error get_immediate_entity_addr
    account_of entity
