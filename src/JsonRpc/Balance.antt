-- ===== src/JsonRpc/Balance.antt =====
-- When `get_balance` of crates/rust-sdk/src/jsonrpc.rs answers that there is no account.
use casper_contract_kit.Base.{
  ◌≡◌, ◌≢◌, ◌↔◌, ◌⊎◌, refl, sym, ap, ◌∙◌, Bool-cases, none, some, Bytes, inl, inr, Outcome, ok, err,
  stop, Stop, pure, ◌>>=◌, bind-ok, bind-eq-ok, bind-err, bind-stop, map_err, arith,
}
use casper_contract_kit.JsonRpc.{
  ℤ, RpcError, response_is_rpc_error, ClientError, client, CasperClient, Node, ask, account_error,
  get_account, get_state_root_hash, balance_of_account, get_balance, account_not_found_code,
  to_ascii_lowercase, is_missing_account_error,
}
use casper_contract_kit.JsonRpc.Missing.{AnyOccurs, phrases, is_missing_account_error_iff}

module _ {W Account Transaction Status Effects Block : Type 0}
    (node : Node W Account Transaction Status Effects Block) (self : CasperClient) where
  -- An account that was found has a balance, or there is an error.
  found_balance :
      (account : Account) (w : W) → (balance_of_account node self (some account) w).0 ≢ ok none
  unfolding balance_of_account
  found_balance account w h =
      let (root, first, h1) =
        bind-eq-ok (get_state_root_hash node self)
          (λ root.
            map_err client (ask node self (node.get_balance root (node.main_purse account)))
            >>= λ balance. pure (some balance))
          w h in
      let w1 = (get_state_root_hash node self w).1 in
      let (balance, second, h2) =
        bind-eq-ok
          (map_err client (ask node self (node.get_balance root (node.main_purse account))))
          (λ balance. pure (some balance)) w1 h1 in
      cc

  -- The node was asked for the account, and answered that it is missing.
  abbrev pub IsMissing : Bytes → W → Type 0
  IsMissing id w =
      (code : ℤ) × (message : Bytes) × ((ask node self (node.get_account id) w).0
        ≡ err (response_is_rpc_error code message))
      × ((code ≡ account_not_found_code) ⊎ AnyOccurs (to_ascii_lowercase message) phrases)

  missing_account : (id : Bytes) (w : W) → IsMissing id w → (get_account node self id w).0 ≡ ok none
  unfolding get_account account_error
  missing_account id w (code, message, answer, why) =
      ground (arith, answer, (is_missing_account_error_iff code message).1 why)

  -- What `get_balance` gives to its first call is an answer of `get_account`.
  found_account :
      (id : Bytes) (w : W) (account : Account)
      → (get_account node self id w).0 ≡ ok (some account)
      → (get_balance node self id w).0 ≢ ok none
  unfolding get_balance
  found_account id w account found h =
      let w1 = (get_account node self id w).1 in
      let step = bind-ok (get_account node self id) (balance_of_account node self) w found in
      found_balance account w1 (sym (ap (λ r. r.0) step) ∙ h)

  failed_account :
      (id : Bytes) (w : W) (e : ClientError)
      → (get_account node self id w).0 ≡ err e
      → (get_balance node self id w).0 ≢ ok none
  unfolding get_balance
  failed_account id w e failed h =
      let step = bind-err (get_account node self id) (balance_of_account node self) w failed in
      cc (sym (ap (λ r. r.0) step) ∙ h)

  stopped_account :
      (id : Bytes) (w : W) (x : Stop ⊥)
      → (get_account node self id w).0 ≡ stop x
      → (get_balance node self id w).0 ≢ ok none
  unfolding get_balance
  stopped_account id w x stopped h =
      let step = bind-stop (get_account node self id) (balance_of_account node self) w stopped in
      cc (sym (ap (λ r. r.0) step) ∙ h)

  none-IsMissing :
      (id : Bytes) (w : W) (r : Outcome ⊥ RpcError Account)
      → (ask node self (node.get_account id) w).0 ≡ r
      → (get_balance node self id w).0 ≡ ok none
      → IsMissing id w
  unfolding get_account account_error
  none-IsMissing id w (ok a) answer h = absurd (found_account id w a (ground (arith, answer)) h)
  none-IsMissing id w (err (response_is_rpc_error code message)) answer h =
      elim (Bool-cases (is_missing_account_error code message)) [
        | inl gone ↦ (code, message, answer, (is_missing_account_error_iff code message).0 gone)
        | inr there ↦ absurd (
            failed_account id w (client (response_is_rpc_error code message))
              (ground (arith, answer, there)) h)
      ]
  none-IsMissing id w (err (RpcError.other n)) answer h =
      absurd (failed_account id w (client (RpcError.other n)) (ground (arith, answer)) h)
  none-IsMissing id w (stop x) answer h = absurd (stopped_account id w x (ground (arith, answer)) h)

  -- `get_balance` answers that there is no account exactly if the node answers the call for the account
  -- with an error that has the code of a missing account, or a message in which one of the five phrases
  -- for a missing account occurs, in any case of letters.
  pub get_balance-none_iff :
      (id : Bytes) (w : W) → ((get_balance node self id w).0 ≡ ok none) ↔ IsMissing id w
  unfolding get_balance balance_of_account
  get_balance-none_iff id w = (
    none-IsMissing id w (ask node self (node.get_account id) w).0 refl,
    λ m.
        ap (λ r. r.0)
          (bind-ok (get_account node self id) (balance_of_account node self) w
            (missing_account id w m)),
  )
