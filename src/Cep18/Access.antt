-- ===== src/Cep18/Access.antt =====
-- `change_security` and `change_events_mode` of cep18.rs, run on the token of Cep18/Token.antt.
use casper_contract_kit.Base.{
  ℕ, ◌<◌, ◌≡◌, ◌≢◌, ◌∙◌, refl, ap, Option, none, some, List, [], Bool, false, if◌then◌else◌,
  unwrap_or, ok, arith,
}
use casper_contract_kit.Casper.{Key, key_eq}
use casper_contract_kit.Cep18.Badge.{SecurityBadge, admin, minter, none_badge, contains}
use casper_contract_kit.Cep18.Methods.{
  map_remove, insert_list, ensure_mint_burn_enabled, sec_check, change_security, change_events_mode,
}
use casper_contract_kit.Cep18.Modalities.{events_mode_try_from}
use casper_contract_kit.Cep18.BadgeMap.{
  lookup, IsDistinct, member, put_all, lookup-insert_all, insert_all-IsDistinct, lookup-map_remove,
  map_remove-IsDistinct, change_sec_badge_eq, put_all_eq,
}
use casper_contract_kit.Cep18.Token.{Token, KeyList, absent, malformed, keys, token_store}

-- Whether an optional list names a key.
abbrev pub names : KeyList → Key → Bool
names absent k = false
names malformed k = false
names (keys list) k = member k list

-- The list that the argument gives.
abbrev given : KeyList → Option (List Key)
given absent = none
given malformed = none
given (keys list) = some list

-- The map that `change_security` applies, and the badges after it.
requested : Token → List (Key × SecurityBadge)
requested t = insert_list none_badge (given (t.key_lists "none_list")) (
    insert_list admin (given (t.key_lists "admin_list"))
      (insert_list minter (given (t.key_lists "minter_list")) []))

abbrev pub new_badge : Key → Token → Option SecurityBadge
new_badge k t =
    if key_eq k t.caller
    then t.badge k
    else if names (t.key_lists "none_list") k
    then some none_badge
    else if names (t.key_lists "admin_list") k
    then some admin
    else if names (t.key_lists "minter_list") k
    then some minter
    else t.badge k

insert_list-IsDistinct :
    (b : SecurityBadge) (l : KeyList) (m : List (Key × SecurityBadge))
    → IsDistinct m
    → IsDistinct (insert_list b (given l) m)
insert_list-IsDistinct b absent m d = d
insert_list-IsDistinct b malformed m d = d
insert_list-IsDistinct b (keys list) m d = insert_all-IsDistinct b list m d

lookup-insert_list :
    (j : Key) (b : SecurityBadge) (l : KeyList) (m : List (Key × SecurityBadge))
    → lookup j (insert_list b (given l) m) ≡ (if names l j then some b else lookup j m)
lookup-insert_list j b absent m = refl
lookup-insert_list j b malformed m = refl
lookup-insert_list j b (keys list) m = lookup-insert_all j b list m

requested-IsDistinct : (t : Token) → IsDistinct (requested t)
unfolding requested IsDistinct
requested-IsDistinct t = insert_list-IsDistinct none_badge (t.key_lists "none_list") _ (
    insert_list-IsDistinct admin (t.key_lists "admin_list") _
      (insert_list-IsDistinct minter (t.key_lists "minter_list") [] tt))

lookup-requested :
    (k : Key) (t : Token)
    → lookup k (requested t) ≡ (
        if names (t.key_lists "none_list") k
        then some none_badge
        else if names (t.key_lists "admin_list") k
        then some admin
        else if names (t.key_lists "minter_list") k
        then some minter
        else none)
unfolding requested lookup
lookup-requested k t =
    let ms = insert_list minter (given (t.key_lists "minter_list")) [] in
    let upper = insert_list admin (given (t.key_lists "admin_list")) ms in
    lookup-insert_list k none_badge (t.key_lists "none_list") upper
    ∙ ap (λ q. if names (t.key_lists "none_list") k then some none_badge else q)
        (lookup-insert_list k admin (t.key_lists "admin_list") ms
          ∙ ap (λ q. if names (t.key_lists "admin_list") k then some admin else q)
              (lookup-insert_list k minter (t.key_lists "minter_list") []))

put_all-requested :
    (k : Key) (t : Token) → put_all (map_remove t.caller (requested t)) t.badge k ≡ new_badge k t
put_all-requested k t =
    let d = requested-IsDistinct t in
    ground (
      arith,
      put_all_eq (map_remove t.caller (requested t)) t.badge k
          (map_remove-IsDistinct t.caller (requested t) d),
      lookup-map_remove k t.caller (requested t) d,
      lookup-requested k t,
    )

change_security_run :
    (t : Token)
    → (change_security token_store t).0 ≡ ok tt
    → (t.badge t.caller ≡ some admin)
      × (unwrap_or 0 t.enable_mint_burn ≢ 0)
      × ((change_security token_store t).1.badge
          ≡ put_all (map_remove t.caller (requested t)) t.badge)
      × ((change_security token_store t).1.balance ≡ t.balance)
      × ((change_security token_store t).1.total_supply ≡ t.total_supply)
unfolding change_security ensure_mint_burn_enabled sec_check contains requested events_mode_try_from
change_security_run t h =
    let e = change_sec_badge_eq (map_remove t.caller (requested t)) t in
    (ground arith, ground arith, ground (arith, e), ground (arith, e), ground (arith, e))

-- A `change_security` that ends without an error was asked for by an Admin with minting and burning
-- enabled. It never changes the caller's own badge; of a key that several lists name, the badge is
-- None before Admin before Minter; a key that no list names keeps its badge.
pub change_security_effect :
    (k : Key) (t : Token)
    → (change_security token_store t).0 ≡ ok tt
    → (t.badge t.caller ≡ some admin)
      × (unwrap_or 0 t.enable_mint_burn ≢ 0)
      × ((change_security token_store t).1.badge k ≡ new_badge k t)
change_security_effect k t h =
    let (a, e, b, _, _) = change_security_run t h in (a, e, ap (λ f. f k) b ∙ put_all-requested k t)

-- A `change_events_mode` that ends without an error was asked for by an Admin, with the byte of a
-- mode, which is the mode afterwards; balances, supply and badges stay.
pub change_events_mode_effect :
    (mode : ℕ) (k : Key) (t : Token)
    → (change_events_mode token_store mode t).0 ≡ ok tt
    → (t.badge t.caller ≡ some admin)
      × (mode < 4)
      × ((change_events_mode token_store mode t).1.events_mode ≡ mode)
      × ((change_events_mode token_store mode t).1.balance k ≡ t.balance k)
      × ((change_events_mode token_store mode t).1.total_supply ≡ t.total_supply)
      × ((change_events_mode token_store mode t).1.badge k ≡ t.badge k)
unfolding change_events_mode sec_check contains events_mode_try_from
change_events_mode_effect mode k t h =
    (ground arith, ground arith, ground arith, ground arith, ground arith, ground arith)

-- `change_security` changes no balance and not the supply, whatever it answers.
pub security_accounts :
    (t : Token)
    → ((change_security token_store t).1.balance ≡ t.balance)
      × ((change_security token_store t).1.total_supply ≡ t.total_supply)
unfolding change_security ensure_mint_burn_enabled sec_check contains requested events_mode_try_from
security_accounts t =
    let e = change_sec_badge_eq (map_remove t.caller (requested t)) t in
    (ground (arith, e), ground (arith, e))
