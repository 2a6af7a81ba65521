-- ===== src/Ownable/Rights.antt =====
-- ownable.rs: what the owner may do, and nobody else.
use casper_contract_kit.Base.{
  ℕ, ◌≡◌, ◌≢◌, refl, ap, ◌∙◌, Option, none, some, ◌==◌, if◌then◌else◌, Outcome, ok, err, bind-ok,
  bind-err, arith,
}
use casper_contract_kit.Base.{◌>>=◌}
use casper_contract_kit.Casper.{Key, ApiError}
use casper_contract_kit.Shim.{casper_put_key}
use casper_contract_kit.Host.{Host, World, Action, SameHost, IsCoherent, resolved}
use casper_contract_kit.NamedKey.{resolve_key, get, set, clear}
use casper_contract_kit.NamedKey.Cache.{resolve_key-Reads, resolve_key-cached}
use casper_contract_kit.NamedKey.Ops.{SameHost-trans}
use casper_contract_kit.Utils.{put_key}
use casper_contract_kit.Utils.Caller.{get_immediate_account}
use casper_contract_kit.Utils.CallerLaws.{IsCalledBy, get_immediate_account-Reads}
use casper_contract_kit.Ownable.{
  ownable_code, unauthorized, owner_missing, owner_key_name, owner_of_key, read_owner, check_owner,
  get_current_owner, ensure_owner, transfer_ownership, renounce_ownership, current_owner,
}

-- What `ensure_owner` should answer the account `a`, by the key that the contract has as its owner.
abbrev pub owner_answer : ℕ → Option Key → Outcome ApiError ApiError ℕ
owner_answer a none = err (ownable_code owner_missing)
owner_answer a (some key) = elim key [
  | Key.account o ↦ if o == a then ok o else err (ownable_code unauthorized)
  | _ ↦ err ApiError.unexpected_key_variant
]

read_owner_eq :
    (m : Action ApiError (Option Key)) (w : World) {k : Option Key}
    → (m w).0 ≡ ok k
    → read_owner m w ≡ (owner_of_key k, (m w).1)
unfolding read_owner
read_owner_eq m w e = ground arith

check_owner_eq :
    (m : Action ApiError (Option ℕ)) (a : ℕ) (w w' : World) (k : Option Key)
    → m w ≡ (owner_of_key k, w')
    → (m >>= check_owner a) w ≡ (owner_answer a k, w')
unfolding check_owner owner_of_key
check_owner_eq m a w w' k e = ground arith

module _ (host : Host) (a : ℕ) (called : IsCalledBy host a) (w : World) (h : IsCoherent host w)
    (emptied : w.env.host_buffer ≡ none) where
  ensure_owner_run :
      ((ensure_owner host w).0 ≡ owner_answer a (w.env.named_keys "owner"))
      × IsCoherent host (ensure_owner host w).1
      × SameHost w.env (ensure_owner host w).1.env
      × ((ensure_owner host w).1.cells owner_key_name ≡ some (resolved (w.env.named_keys "owner")))
  unfolding ensure_owner get_current_owner get
  ensure_owner_run =
      let first = get_immediate_account-Reads host a called w h emptied in
      let w1 = (get_immediate_account host w).1 in
      let second = resolve_key-Reads host owner_key_name w1 first.coherent in
      let cached = resolve_key-cached host owner_key_name w1 first.coherent in
      let w2 = (resolve_key host owner_key_name w1).1 in
      let key : w1.env.named_keys "owner" ≡ w.env.named_keys "owner" =
        ap (λ f. f "owner") first.same.named_keys in
      let run : ensure_owner host w ≡ (owner_answer a (w.env.named_keys "owner"), w2) =
        bind-ok (get_immediate_account host)
          (λ caller. get_current_owner host >>= check_owner caller) w first.value
        ∙ check_owner_eq (get_current_owner host) a w1 w2 (w1.env.named_keys "owner")
            (read_owner_eq (get host owner_key_name) w1 second.value)
        ∙ ap (λ k. (owner_answer a k, w2)) key in
      rw run (
        refl,
        second.coherent,
        SameHost-trans first.same second.same,
        cached ∙ ap (λ k. some (resolved k)) key,
      )

  -- For an account that calls with coherent caches and an empty host buffer, `ensure_owner`
  -- answers as the host's key says: the owner, unauthorized, owner missing, or a key of an
  -- unexpected kind. The caches stay coherent and the host as it is.
  pub ensure_owner_lem :
      ((ensure_owner host w).0 ≡ owner_answer a (w.env.named_keys "owner"))
      × IsCoherent host (ensure_owner host w).1
      × SameHost w.env (ensure_owner host w).1.env
  ensure_owner_lem = let (value, coherent, same, _) = ensure_owner_run in (value, coherent, same)

  -- For an account that calls with coherent caches and an empty host buffer, `transfer_ownership`
  -- by the owner ends without an error: the host has the new owner's key, and `current_owner`
  -- answers the new owner.
  pub transfer_ownership_effect :
      (new_owner : ℕ)
      → w.env.named_keys "owner" ≡ some (Key.account a)
      → ((transfer_ownership host new_owner w).0 ≡ ok tt)
        × ((transfer_ownership host new_owner w).1.env.named_keys "owner"
            ≡ some (Key.account new_owner))
        × ((current_owner host (transfer_ownership host new_owner w).1).0 ≡ ok (some new_owner))
  unfolding transfer_ownership current_owner get_current_owner get resolve_key set read_owner
      owner_of_key put_key casper_put_key
  transfer_ownership_effect new_owner owns =
      let (value, _, _) = ensure_owner_lem in
      let run =
        bind-ok (ensure_owner host) (λ _. set host owner_key_name (Key.account new_owner)) w {a = a}
          (value ∙ ap (owner_answer a) owns ∙ ground arith) in
      rw run (refl, refl, refl)

  -- For an account that calls with coherent caches and an empty host buffer, which is not the
  -- account of the owner's key, `transfer_ownership` and `renounce_ownership` do not end without
  -- an error and leave the named keys as they are.
  pub others_refused :
      (new_owner : ℕ)
      → w.env.named_keys "owner" ≢ some (Key.account a)
      → ((transfer_ownership host new_owner w).0 ≢ ok tt)
        × ((transfer_ownership host new_owner w).1.env.named_keys ≡ w.env.named_keys)
        × ((renounce_ownership host w).0 ≢ ok tt)
        × ((renounce_ownership host w).1.env.named_keys ≡ w.env.named_keys)
  unfolding transfer_ownership renounce_ownership
  others_refused new_owner other =
      let (value, _, same) = ensure_owner_lem in
      let (x, e) = refused (w.env.named_keys "owner") other in
      let run =
        bind-err (ensure_owner host) (λ _. set host owner_key_name (Key.account new_owner)) w
          (value ∙ e) in
      let run' = bind-err (ensure_owner host) (λ _. clear host owner_key_name) w (value ∙ e) in
      rw (run, run') ((λ f. cc), same.named_keys, (λ f. cc), same.named_keys)
    where
      refused :
          (k : Option Key) → k ≢ some (Key.account a) → (x : ApiError) × (owner_answer a k ≡ err x)
      refused none d = (ownable_code owner_missing, refl)
      refused (some (Key.account o)) d = (ownable_code unauthorized, ground arith)
      refused (some (Key.hash _)) d = (ApiError.unexpected_key_variant, refl)
      refused (some (Key.uref _)) d = (ApiError.unexpected_key_variant, refl)
      refused (some (Key.addressable_entity _)) d = (ApiError.unexpected_key_variant, refl)
      refused (some (Key.smart_contract _)) d = (ApiError.unexpected_key_variant, refl)
      refused (some (Key.balance _)) d = (ApiError.unexpected_key_variant, refl)
      refused (some (Key.other _)) d = (ApiError.unexpected_key_variant, refl)
