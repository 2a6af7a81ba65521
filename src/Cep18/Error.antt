-- ===== src/Cep18/Error.antt =====
-- crates/contract-extras/src/cep18/error.rs: the errors of the token and their codes.
use casper_contract_kit.Base.{
  ℕ, zero, suc, ◌-◌, ◌≤◌, ◌≡◌, ◌↔◌, refl, sym, ap, ◌∙◌, Option, none, some, List, [], ◌∷◌, arith,
}
use casper_contract_kit.Casper.{ApiError}

pub data Cep18Error : Type 0 where
  invalid_context : Cep18Error
  insufficient_balance : Cep18Error
  insufficient_allowance : Cep18Error
  overflow : Cep18Error
  package_hash_missing : Cep18Error
  package_hash_not_package : Cep18Error
  invalid_events_mode : Cep18Error
  missing_events_mode : Cep18Error
  phantom : Cep18Error
  failed_to_get_arg_bytes : Cep18Error
  insufficient_rights : Cep18Error
  invalid_admin_list : Cep18Error
  invalid_minter_list : Cep18Error
  invalid_none_list : Cep18Error
  invalid_enable_mb_flag : Cep18Error
  already_initialized : Cep18Error
  mint_burn_disabled : Cep18Error
  cannot_target_self_user : Cep18Error
  invalid_burn_target : Cep18Error
  missing_package_hash_for_upgrade : Cep18Error
  missing_contract_hash_for_upgrade : Cep18Error
  invalid_key_type : Cep18Error
  failed_to_convert_to_json : Cep18Error
  failed_to_return_entry_point_result : Cep18Error
  failed_to_create_dictionary : Cep18Error
  failed_to_convert_bytes : Cep18Error
  failed_to_change_total_supply : Cep18Error
  failed_to_read_from_storage : Cep18Error
  failed_to_get_key : Cep18Error
  failed_to_disable_contract_version : Cep18Error
  failed_to_insert_to_security_list : Cep18Error
  uref_not_found : Cep18Error
  failed_to_get_old_contract_hash_key : Cep18Error
  failed_to_get_old_package_key : Cep18Error
  failed_to_get_package_key : Cep18Error
  missing_storage_uref : Cep18Error
  invalid_storage_uref : Cep18Error
  missing_version_contract_key : Cep18Error
  invalid_version_contract_key : Cep18Error

-- `error as u16`
unfoldable pub code : Cep18Error → ℕ
code invalid_context = 60000
code insufficient_balance = 60001
code insufficient_allowance = 60002
code overflow = 60003
code package_hash_missing = 60004
code package_hash_not_package = 60005
code invalid_events_mode = 60006
code missing_events_mode = 60007
code phantom = 60008
code failed_to_get_arg_bytes = 60009
code insufficient_rights = 60010
code invalid_admin_list = 60011
code invalid_minter_list = 60012
code invalid_none_list = 60013
code invalid_enable_mb_flag = 60014
code already_initialized = 60015
code mint_burn_disabled = 60016
code cannot_target_self_user = 60017
code invalid_burn_target = 60018
code missing_package_hash_for_upgrade = 60019
code missing_contract_hash_for_upgrade = 60020
code invalid_key_type = 60021
code failed_to_convert_to_json = 60022
code failed_to_return_entry_point_result = 60023
code failed_to_create_dictionary = 60024
code failed_to_convert_bytes = 60025
code failed_to_change_total_supply = 60026
code failed_to_read_from_storage = 60027
code failed_to_get_key = 60028
code failed_to_disable_contract_version = 60029
code failed_to_insert_to_security_list = 60030
code uref_not_found = 60031
code failed_to_get_old_contract_hash_key = 60032
code failed_to_get_old_package_key = 60033
code failed_to_get_package_key = 60034
code missing_storage_uref = 60035
code invalid_storage_uref = 60036
code missing_version_contract_key = 60037
code invalid_version_contract_key = 60038

-- `impl From<Cep18Error> for ApiError`
abbrev pub to_api_error : Cep18Error → ApiError
to_api_error e = ApiError.user (code e)

-- The errors in the order of their codes.
abbrev all_errors : List Cep18Error
all_errors =
    invalid_context ∷ insufficient_balance ∷ insufficient_allowance ∷ overflow
    ∷ package_hash_missing ∷ package_hash_not_package ∷ invalid_events_mode ∷ missing_events_mode
    ∷ phantom ∷ failed_to_get_arg_bytes ∷ insufficient_rights ∷ invalid_admin_list
    ∷ invalid_minter_list ∷ invalid_none_list ∷ invalid_enable_mb_flag ∷ already_initialized
    ∷ mint_burn_disabled ∷ cannot_target_self_user ∷ invalid_burn_target
    ∷ missing_package_hash_for_upgrade ∷ missing_contract_hash_for_upgrade ∷ invalid_key_type
    ∷ failed_to_convert_to_json ∷ failed_to_return_entry_point_result ∷ failed_to_create_dictionary
    ∷ failed_to_convert_bytes ∷ failed_to_change_total_supply ∷ failed_to_read_from_storage
    ∷ failed_to_get_key ∷ failed_to_disable_contract_version ∷ failed_to_insert_to_security_list
    ∷ uref_not_found ∷ failed_to_get_old_contract_hash_key ∷ failed_to_get_old_package_key
    ∷ failed_to_get_package_key ∷ missing_storage_uref ∷ invalid_storage_uref
    ∷ missing_version_contract_key ∷ invalid_version_contract_key ∷ []

nth : {A : Type 0} → List A → ℕ → Option A
nth [] i = none
nth (x ∷ xs) zero = some x
nth (x ∷ xs) (suc i) = nth xs i

code-nth : (e : Cep18Error) → nth all_errors (code e - 60000) ≡ some e
unfolding nth code
code-nth invalid_context = refl
code-nth insufficient_balance = refl
code-nth insufficient_allowance = refl
code-nth overflow = refl
code-nth package_hash_missing = refl
code-nth package_hash_not_package = refl
code-nth invalid_events_mode = refl
code-nth missing_events_mode = refl
code-nth phantom = refl
code-nth failed_to_get_arg_bytes = refl
code-nth insufficient_rights = refl
code-nth invalid_admin_list = refl
code-nth invalid_minter_list = refl
code-nth invalid_none_list = refl
code-nth invalid_enable_mb_flag = refl
code-nth already_initialized = refl
code-nth mint_burn_disabled = refl
code-nth cannot_target_self_user = refl
code-nth invalid_burn_target = refl
code-nth missing_package_hash_for_upgrade = refl
code-nth missing_contract_hash_for_upgrade = refl
code-nth invalid_key_type = refl
code-nth failed_to_convert_to_json = refl
code-nth failed_to_return_entry_point_result = refl
code-nth failed_to_create_dictionary = refl
code-nth failed_to_convert_bytes = refl
code-nth failed_to_change_total_supply = refl
code-nth failed_to_read_from_storage = refl
code-nth failed_to_get_key = refl
code-nth failed_to_disable_contract_version = refl
code-nth failed_to_insert_to_security_list = refl
code-nth uref_not_found = refl
code-nth failed_to_get_old_contract_hash_key = refl
code-nth failed_to_get_old_package_key = refl
code-nth failed_to_get_package_key = refl
code-nth missing_storage_uref = refl
code-nth invalid_storage_uref = refl
code-nth missing_version_contract_key = refl
code-nth invalid_version_contract_key = refl

-- Different errors have different codes, all from 60000 to 60038, so a caller can tell which error
-- reverted a call.
pub code_distinct :
    (e e' : Cep18Error)
    → ((to_api_error e ≡ to_api_error e') ↔ (e ≡ e')) × (60000 ≤ code e) × (code e ≤ 60038)
code_distinct e e' = ((same, λ p. ap to_api_error p), low e, high e)
  where
    user_code : ApiError → ℕ
    user_code (ApiError.user n) = n
    user_code _ = 0

    same : to_api_error e ≡ to_api_error e' → e ≡ e'
    same p =
        let codes : code e ≡ code e' = ap user_code p in
        let found : some e ≡ some e' =
          sym (code-nth e) ∙ ap (λ n. nth all_errors (n - 60000)) codes ∙ code-nth e' in
        cc

    low : (e : Cep18Error) → 60000 ≤ code e
    low e = unfold code in ground arith

    high : (e : Cep18Error) → code e ≤ 60038
    high e = unfold code in ground arith
