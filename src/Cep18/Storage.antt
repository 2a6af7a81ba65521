-- ===== src/Cep18/Storage.antt =====
-- crates/contract-extras/src/cep18/balances.rs and allowances.rs: the numbers of the token in the
-- dictionaries of a contract. The serialization of a key, base64, hex and blake2b are parameters.
pub mod Ledger
use casper_contract_kit.Base.{ℕ, Bytes, ◌++◌, Exec, pure, map_err, unwrap_or}
use casper_contract_kit.Base.{◌>>=◌}
use casper_contract_kit.Casper.{Key, ApiError}
use casper_contract_kit.Casper.Codec.{Codec}
use casper_contract_kit.Host.{Host, World, NamedKey}
use casper_contract_kit.NamedKey.{from_name, put_dict, get_dict}
use casper_contract_kit.Cep18.Error.{failed_to_read_from_storage}
use casper_contract_kit.Cep18.Store.{Entry}

-- `BALANCES_DICT` and `ALLOWANCES_DICT`
abbrev pub balances_dict : NamedKey
balances_dict = from_name "balances"

abbrev pub allowances_dict : NamedKey
allowances_dict = from_name "allowances"

module _ (key_to_bytes : Key → Bytes) (base64_encode : Bytes → Bytes) where
  -- `make_dictionary_item_key` of balances.rs
  unfoldable pub balance_item_key : Key → Bytes
  balance_item_key owner = base64_encode (key_to_bytes owner)

  module _ (host : Host) (u256_codec : Codec ℕ) where
    unfoldable pub write_balance_to : Key → ℕ → Entry World (Unit {0})
    write_balance_to address amount =
        map_err (λ _. failed_to_read_from_storage)
          (put_dict host u256_codec balances_dict (balance_item_key address) amount)

    unfoldable pub read_balance_from : Key → Entry World ℕ
    read_balance_from address = do
      value ←
          map_err (λ _. failed_to_read_from_storage)
            (get_dict host u256_codec balances_dict (balance_item_key address))
      pure (unwrap_or 0 value)

module _ (key_to_bytes : Key → Bytes) (blake2b hex_encode : Bytes → Bytes) where
  -- `make_dictionary_item_key` of utils.rs
  unfoldable pub allowance_item_key : Key × Key → Bytes
  allowance_item_key pair = hex_encode (blake2b (key_to_bytes pair.0 ++ key_to_bytes pair.1))

  module _ (host : Host) (u256_codec : Codec ℕ) where
    unfoldable pub write_allowance_to : Key → Key → ℕ → Entry World (Unit {0})
    write_allowance_to owner spender amount =
        map_err (λ _. failed_to_read_from_storage)
          (put_dict host u256_codec allowances_dict (allowance_item_key (owner, spender)) amount)

    unfoldable pub read_allowance_from : Key → Key → Entry World ℕ
    read_allowance_from owner spender = do
      value ←
          map_err (λ _. failed_to_read_from_storage)
            (get_dict host u256_codec allowances_dict (allowance_item_key (owner, spender)))
      pure (unwrap_or 0 value)
