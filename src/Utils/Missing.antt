-- ===== src/Utils/Missing.antt =====
-- utils.rs over the in-memory host: a value that is not there.
use casper_contract_kit.Base.{◌≡◌, ◌≢◌, none, ok, err, arith}
use casper_contract_kit.Casper.{Key, ApiError}
use casper_contract_kit.Casper.Codec.{Codec}
use casper_contract_kit.Host.{Host, World}
use casper_contract_kit.Shim.{casper_read_value}
use casper_contract_kit.Utils.{read_key, found_value, buffered, deserialize}

module _ (host : Host) {T : Type 0} (codec : Codec T) where
  -- Over the in-memory host, reading a key without a value fails with the error of the code -1. If
  -- that is not the error of a missing value, the caller does not turn it into no value.
  pub read_key_missing :
      (key : Key) (w : World)
      → host.unknown_code ≢ ApiError.value_not_found
      → w.env.database key ≡ none
      → ((read_key host codec key w).0 ≡ err host.unknown_code)
        × ((read_key host codec key w).0 ≢ ok none)
  unfolding read_key casper_read_value found_value buffered deserialize
  read_key_missing key w other missing = (ground arith, ground arith)
