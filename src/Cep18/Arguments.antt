-- ===== src/Cep18/Arguments.antt =====
-- crates/contract-extras/src/cep18/utils.rs: the caller and the named arguments of an entry point.
use casper_contract_kit.Base.{
  ℕ, ◌≡◌, ◌≢◌, String, Bytes, Option, none, some, [], ltb, ◌==◌, if◌then◌else◌, Outcome, ok, err,
  stop, reverted, revert, pure, ok_or, some_or_revert, unwrap_or_revert, length, ◌∷◌, refl, ap, ◌∙◌,
  inl, inr, Option-cases, bind-ok, arith,
}
use casper_contract_kit.Base.{◌>>=◌}
use casper_contract_kit.Casper.{Key, ApiError}
use casper_contract_kit.Casper.Codec.{Codec}
use casper_contract_kit.Host.{Host, World, CallerInfo, immediate, ffi}
use casper_contract_kit.Shim.{
  record_call, HostFunction, casper_get_named_arg_size, casper_get_named_arg,
}
use casper_contract_kit.Utils.Caller.{get_initiator_or_immediate}
use casper_contract_kit.Utils.Caller
use casper_contract_kit.Cep18.Error.{
  Cep18Error, phantom, invalid_context, failed_to_get_arg_bytes, to_api_error,
}
use casper_contract_kit.Cep18.Store.{Entry}

-- The key of the frame that called: an account, the package of a contract, or an entity. The key of
-- a package is a parameter.
unfoldable pub caller_key : (ℕ → Key) → CallerInfo → Entry World Key
caller_key package_key frame =
    if frame.kind == 0
    then (do
      account_hash ← some_or_revert frame.account_hash (to_api_error invalid_context)
      pure (Key.account account_hash))
    else if frame.kind == 4
    then (do
      package_hash ← some_or_revert frame.contract_package (to_api_error invalid_context)
      pure (package_key package_hash))
    else if frame.kind == 3
    then (do
      entity_addr ← some_or_revert frame.entity (to_api_error invalid_context)
      pure (Key.addressable_entity entity_addr))
    else revert (to_api_error invalid_context)

unfoldable pub get_immediate_caller : Host → (ℕ → Key) → Entry World Key
get_immediate_caller host package_key = do
  frame ← unwrap_or_revert Caller.to_api_error (get_initiator_or_immediate host immediate)
  caller_key package_key frame

-- `get_named_arg_size`: a missing argument has no size, any other error reverts.
unfoldable pub size_error : ApiError → Outcome ApiError Cep18Error (Option ℕ)
size_error e = elim e [ ApiError.missing_argument ↦ ok none | e' ↦ stop (reverted e') ]

unfoldable pub get_named_arg_size : String → Entry World (Option ℕ)
get_named_arg_size name w =
    let (r, w') = ffi (casper_get_named_arg_size name) w in
    elim r [ ok size ↦ (ok (some size), w') | err e ↦ (size_error e, w') | stop x ↦ (stop x, w') ]

unfoldable pub named_arg_bytes : String → ℕ → Entry World Bytes
named_arg_bytes name arg_size =
    if ltb 0 arg_size
    then unwrap_or_revert (λ _. to_api_error failed_to_get_arg_bytes)
        (ffi (casper_get_named_arg name arg_size))
    else pure []

-- The arms of `get_optional_named_arg_with_user_errors`.
unfoldable pub optional_error : {T : Type 0} → Cep18Error → Outcome ApiError Cep18Error (Option T)
optional_error e = elim e [ phantom ↦ ok none | e' ↦ stop (reverted (to_api_error e')) ]

-- The bytes of an argument that was given, under its size, also if there are none.
named_arg_bytes_lem :
    (name : String) (bytes : Bytes) (w : World)
    → w.env.args name ≡ some bytes
    → (named_arg_bytes name (length bytes) w).0 ≡ ok bytes
unfolding named_arg_bytes casper_get_named_arg
named_arg_bytes_lem name [] w e = refl
named_arg_bytes_lem name (b ∷ bytes) w e = ground (arith, e)

module _ {T : Type 0} (codec : Codec T) where
  unfoldable pub get_named_arg_with_user_errors : String → Cep18Error → Cep18Error → Entry World T
  get_named_arg_with_user_errors name missing invalid = do
    size ← get_named_arg_size name
    arg_size ← ok_or size missing
    arg_bytes ← named_arg_bytes name arg_size
    ok_or (codec.from_bytes arg_bytes) invalid

  unfoldable pub get_optional_named_arg_with_user_errors :
      String → Cep18Error → Entry World (Option T)
  get_optional_named_arg_with_user_errors name invalid w =
      let (r, w') = get_named_arg_with_user_errors name phantom invalid w in
      elim r [
        | ok val ↦ (ok (some val), w')
        | err e ↦ (optional_error e, w')
        | stop x ↦ (stop x, w')
      ]

  -- What the argument should give: nothing if it is missing, its value, or a revert with the error of
  -- the caller if it does not parse.
  abbrev pub optional_answer : Cep18Error → Option Bytes → Outcome ApiError Cep18Error (Option T)
  optional_answer invalid none = ok none
  optional_answer invalid (some bytes) = elim (codec.from_bytes bytes) [
    | none ↦ stop (reverted (to_api_error invalid))
    | some value ↦ ok (some value)
  ]

  abbrev decoded : Cep18Error → Option T → Outcome ApiError Cep18Error T
  decoded invalid none = err invalid
  decoded invalid (some value) = ok value

  given_arg :
      (name : String) (missing invalid : Cep18Error) (bytes : Bytes) (w : World)
      → w.env.args name ≡ some bytes
      → (get_named_arg_with_user_errors name missing invalid w).0
        ≡ decoded invalid (codec.from_bytes bytes)
  unfolding get_named_arg_with_user_errors get_named_arg_size casper_get_named_arg_size
  given_arg name missing invalid bytes w e =
      let called = record w { env = record_call HostFunction.casper_get_named_arg_size w.env } in
      let size : get_named_arg_size name w ≡ (ok (some (length bytes)), called) =
        ground (arith, e) in
      let arg = named_arg_bytes_lem name bytes called e in
      let run =
        bind-ok (get_named_arg_size name)
          (λ size. ok_or size missing >>= λ n.
            named_arg_bytes name n >>= λ arg. ok_or (codec.from_bytes arg) invalid)
          w (ap (λ r. r.0) size)
        ∙ ap
            (λ r.
              (named_arg_bytes name (length bytes) >>= λ arg. ok_or (codec.from_bytes arg) invalid)
                r.1)
            size
        ∙ bind-ok (named_arg_bytes name (length bytes))
            (λ arg. ok_or (codec.from_bytes arg) invalid) called arg in
      ap (λ r. r.0) run
      ∙ by_result (codec.from_bytes bytes) (named_arg_bytes name (length bytes) called).1
    where
      by_result :
          (o : Option T) (v : World) → (ok_or {X = ApiError} o invalid v).0 ≡ decoded invalid o
      by_result none v = refl
      by_result (some a) v = refl

  -- An optional argument over the in-memory host is what the call was given: nothing, its value, or a
  -- revert with the error that the entry point chose, which is not the one that stands for nothing.
  pub get_optional_named_arg_lem :
      (name : String) (invalid : Cep18Error) (w : World)
      → invalid ≢ phantom
      → (get_optional_named_arg_with_user_errors name invalid w).0
        ≡ optional_answer invalid (w.env.args name)
  unfolding get_optional_named_arg_with_user_errors get_named_arg_with_user_errors
      get_named_arg_size size_error optional_error casper_get_named_arg_size
  get_optional_named_arg_lem name invalid w other = elim (Option-cases (w.env.args name)) [
    | inl missing ↦ ground (arith, missing)
    | inr (bytes, e) ↦ ground (arith, e, given_arg name phantom invalid bytes w e)
  ]
