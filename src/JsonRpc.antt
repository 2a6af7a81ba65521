-- ===== src/JsonRpc.antt =====
-- The JSON-RPC client of crates/rust-sdk/src/jsonrpc.rs. The calls of casper_client, random numbers and
-- TOML are the parameters `Node` and `TomlReader`; a text is its UTF-8 bytes, and the state is the world
-- of the network. The code never panics.
pub mod Missing
pub mod Balance
use casper_contract_kit.Base.{
  ℕ, ◌+◌, Bool, true, false, Option, none, some, List, [], ◌∷◌, map, ◌⊎◌, inl, inr, Bytes, ltb,
  ◌==◌, ◌&&◌, ◌||◌, not, if◌then◌else◌, Exec, Outcome, ok, err, pure, throw, map_err, from_result,
  ok_or, ◌>>=◌,
}

-- `i64`
pub data ℤ : Type 0 where
  pos negsuc : ℕ → ℤ

-- `casper_client::Error`: the error that a node answers, or any other.
pub data RpcError : Type 0 where
  response_is_rpc_error : ℤ → Bytes → RpcError
  other : ℕ → RpcError

-- `CasperClientError`; the errors of other crates are told apart by a number.
pub data ClientError : Type 0 where
  client : RpcError → ClientError
  chainspec : ℕ → ClientError
  balance_overflow missing_state_root_hash missing_network_name : ClientError
  secret_key io transaction_build task_join : ℕ → ClientError

pub data Verbosity : Type 0 where
  low medium high : Verbosity

-- `str::to_ascii_lowercase`
abbrev lower : ℕ → ℕ
lower b = if ltb 64 b && ltb b 91 then b + 32 else b

unfoldable pub to_ascii_lowercase : Bytes → Bytes
to_ascii_lowercase text = map lower text

-- `str::contains`
unfoldable pub starts_with : Bytes → Bytes → Bool
starts_with text [] = true
starts_with [] (p ∷ pattern_) = false
starts_with (b ∷ text) (p ∷ pattern_) = b == p && starts_with text pattern_

unfoldable pub contains : Bytes → Bytes → Bool
contains [] p = starts_with [] p
contains (b ∷ text) p = starts_with (b ∷ text) p || contains text p

abbrev pub account_not_found_code : ℤ
account_not_found_code = negsuc 32074

abbrev pub is_not_found : ℤ → Bool
is_not_found (pos n) = false
is_not_found (negsuc n) = n == 32074

-- "failed to get account"
abbrev pub failed_to_get_account : Bytes
failed_to_get_account =
    102 ∷ 97 ∷ 105 ∷ 108 ∷ 101 ∷ 100 ∷ 32 ∷ 116 ∷ 111 ∷ 32 ∷ 103 ∷ 101 ∷ 116 ∷ 32 ∷ 97 ∷ 99 ∷ 99
    ∷ 111 ∷ 117 ∷ 110 ∷ 116 ∷ []

-- "account not found"
abbrev pub account_not_found : Bytes
account_not_found =
    97 ∷ 99 ∷ 99 ∷ 111 ∷ 117 ∷ 110 ∷ 116 ∷ 32 ∷ 110 ∷ 111 ∷ 116 ∷ 32 ∷ 102 ∷ 111 ∷ 117 ∷ 110 ∷ 100
    ∷ []

-- "no such account"
abbrev pub no_such_account : Bytes
no_such_account =
    110 ∷ 111 ∷ 32 ∷ 115 ∷ 117 ∷ 99 ∷ 104 ∷ 32 ∷ 97 ∷ 99 ∷ 99 ∷ 111 ∷ 117 ∷ 110 ∷ 116 ∷ []

-- "does not exist"
abbrev pub does_not_exist : Bytes
does_not_exist =
    100 ∷ 111 ∷ 101 ∷ 115 ∷ 32 ∷ 110 ∷ 111 ∷ 116 ∷ 32 ∷ 101 ∷ 120 ∷ 105 ∷ 115 ∷ 116 ∷ []

-- "missing"
abbrev pub missing : Bytes
missing = 109 ∷ 105 ∷ 115 ∷ 115 ∷ 105 ∷ 110 ∷ 103 ∷ []

unfoldable pub is_missing_account_error : ℤ → Bytes → Bool
is_missing_account_error code message =
    let lowered = to_ascii_lowercase message in
    if is_not_found code
    then true
    else contains lowered failed_to_get_account
      || (contains lowered account_not_found
          || (contains lowered no_such_account
              || (contains lowered does_not_exist || contains lowered missing)))

-- `CasperClient`
pub record CasperClient : Type 0 where
  pub rpc_endpoint : Bytes
  pub verbosity : Verbosity

abbrev pub new : Bytes → CasperClient
new endpoint = record { rpc_endpoint = endpoint; verbosity = low }

-- casper_client: a call takes the id, the endpoint and the verbosity, and gives an error or the result.
-- `random` is the random i64 of an id.
abbrev pub Call : Type 0 → Type 0 → Type 0
Call W A = ℤ → Bytes → Verbosity → W → (RpcError ⊎ A) × W

pub record Node (W Account Transaction Status Effects Block : Type 0) : Type 0 where
  pub random : W → ℤ × W
  pub get_account : Bytes → Call W Account
  pub main_purse : Account → ℕ
  pub get_state_root_hash : Call W (Option ℕ)
  pub get_balance : ℕ → ℕ → Call W ℕ
  pub put_transaction : Transaction → Call W ℕ
  pub get_transaction : ℕ → Bool → Call W Status
  pub get_chainspec : Call W Bytes
  pub speculative_exec_txn : Transaction → Call W Effects
  pub get_block : Option ℕ → Call W Block

-- "network" and "name"
abbrev pub network : Bytes
network = 110 ∷ 101 ∷ 116 ∷ 119 ∷ 111 ∷ 114 ∷ 107 ∷ []

abbrev pub name : Bytes
name = 110 ∷ 97 ∷ 109 ∷ 101 ∷ []

-- toml: `from_slice`, `Value::get` and `Value::as_str`
pub record TomlReader (Toml : Type 0) : Type 0 where
  pub from_slice : Bytes → ℕ ⊎ Toml
  pub get : Bytes → Toml → Option Toml
  pub as_str : Toml → Option Bytes

abbrev pub Rpc : Type 0 → Type 0 → Type 0 → Type 0
Rpc W E A = Exec W ⊥ E A

module _ {W Account Transaction Status Effects Block : Type 0}
    (node : Node W Account Transaction Status Effects Block) (self : CasperClient) where
  unfoldable pub next_rpc_id : {E : Type 0} → Rpc W E ℤ
  next_rpc_id w = let (id, w') = node.random w in (ok id, w')

  -- A call under a new id.
  unfoldable pub ask : {A : Type 0} → Call W A → Rpc W RpcError A
  ask call = do
    id ← next_rpc_id
    λ w.
        let (r, w') = call id self.rpc_endpoint self.verbosity w in
        elim r [ inl e ↦ (err e, w') | inr a ↦ (ok a, w') ]

  -- `Err(ResponseIsRpcError { .. }) if is_missing_account_error(..) => Ok(None)`
  unfoldable pub account_error : RpcError → Outcome ⊥ ClientError (Option Account)
  account_error (response_is_rpc_error code message) =
      if is_missing_account_error code message
      then ok none
      else err (client (response_is_rpc_error code message))
  account_error (RpcError.other n) = err (client (RpcError.other n))

  unfoldable pub get_account : Bytes → Rpc W ClientError (Option Account)
  get_account account_identifier w =
      let (r, w') = ask (node.get_account account_identifier) w in
      elim r [
        | ok a ↦ (ok (some a), w')
        | err e ↦ (account_error e, w')
        | Outcome.stop x ↦ (Outcome.stop x, w')
      ]

  unfoldable pub get_state_root_hash : Rpc W ClientError ℕ
  get_state_root_hash = do
    result ← map_err client (ask node.get_state_root_hash)
    ok_or result missing_state_root_hash

  -- The balance of an account that was found.
  unfoldable pub balance_of_account : Option Account → Rpc W ClientError (Option ℕ)
  balance_of_account none = pure none
  balance_of_account (some account) = do
    state_root ← get_state_root_hash
    balance ← map_err client (ask (node.get_balance state_root (node.main_purse account)))
    pure (some balance)

  unfoldable pub get_balance : Bytes → Rpc W ClientError (Option ℕ)
  get_balance account_identifier = do
    account ← get_account account_identifier
    balance_of_account account

  unfoldable pub put_transaction : Transaction → Rpc W ClientError ℕ
  put_transaction transaction = map_err client (ask (node.put_transaction transaction))

  unfoldable pub get_transaction : ℕ → Bool → Rpc W ClientError Status
  get_transaction hash finalized_approvals =
      map_err client (ask (node.get_transaction hash finalized_approvals))

  unfoldable pub speculative_exec_txn : Transaction → Rpc W ClientError Effects
  speculative_exec_txn transaction = map_err client (ask (node.speculative_exec_txn transaction))

  unfoldable pub get_block : Option ℕ → Rpc W ClientError Block
  get_block block_identifier = map_err client (ask (node.get_block block_identifier))

  module _ {Toml : Type 0} (toml : TomlReader Toml) where
    unfoldable pub parse_chainspec : Bytes → Rpc W ClientError Toml
    parse_chainspec result = map_err chainspec (from_result (toml.from_slice result))

    unfoldable pub get_chainspec : Rpc W ClientError Toml
    get_chainspec = do result ← map_err client (ask node.get_chainspec); parse_chainspec result

    -- `chainspec.get("network").and_then(..).and_then(TomlValue::as_str)`
    unfoldable pub network_name : Toml → Option Bytes
    network_name value = elim (toml.get network value) [
      | none ↦ none
      | some table ↦ elim (toml.get name table) [ none ↦ none | some v ↦ toml.as_str v ]
    ]

    unfoldable pub get_network_name : Rpc W ClientError Bytes
    get_network_name = do value ← get_chainspec; ok_or (network_name value) missing_network_name
