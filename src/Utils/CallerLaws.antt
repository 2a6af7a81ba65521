-- ===== src/Utils/CallerLaws.antt =====
-- utils.rs: the account that calls, as the host documents it.
use casper_contract_kit.Base.{ℕ, ◌≡◌, refl, Bytes, none, some, [], ◌∷◌, length, ok, arith}
use casper_contract_kit.Casper.{ApiError}
use casper_contract_kit.Shim.{Env, casper_read_host_buffer}
use casper_contract_kit.Host.{Host, World, CallerInfo, immediate, IsCoherent}
use casper_contract_kit.NamedKey.Cache.{Reads}
use casper_contract_kit.NamedKey.Ops.{IsCoherent-after}
use casper_contract_kit.Utils.{read_host_buffer}
use casper_contract_kit.Utils.Caller.{
  get_initiator_or_immediate, get_immediate_entity_addr, get_immediate_account, only_frame,
  frame_entity, or_no_frame, entity_of_frame, account_of,
}

-- The host answers that the account `a` called: one frame, left serialized in its buffer.
pub record IsCalledBy (host : Host) (a : ℕ) : Type 0 where
  pub frame : CallerInfo
  pub bytes : Bytes
  pub is_account : frame.kind ≡ 0
  pub account : frame.account_hash ≡ some a
  pub decodes : host.callers_from_bytes bytes ≡ some (frame ∷ [])
  pub loads :
      (e : Env)
      → host.load_caller_information immediate e
        ≡ (ok (1, length bytes), record e { host_buffer = some bytes })

module _ (host : Host) (a : ℕ) (called : IsCalledBy host a) where
  run_eq :
      (w : World)
      → get_immediate_account host w
        ≡ (ok a, record w { env = record w.env { host_buffer = none } })
  unfolding get_immediate_account get_immediate_entity_addr get_initiator_or_immediate only_frame
      frame_entity or_no_frame entity_of_frame account_of read_host_buffer casper_read_host_buffer
  run_eq w = ground (arith, called.loads w.env, called.decodes, called.account, called.is_account)

  -- The account that calls is found, and the host's buffer is empty again.
  pub get_immediate_account-Reads :
      (w : World)
      → IsCoherent host w
      → w.env.host_buffer ≡ none
      → Reads {X = ApiError} host w a (get_immediate_account host w)
  get_immediate_account-Reads w h emptied = rw (run_eq w) (record {
    value = refl;
    coherent = IsCoherent-after host w _ h refl refl;
    same = ground arith;
  })
