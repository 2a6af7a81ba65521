-- ===== src/Runs/Json.antt =====
-- A serializer of keys and events for the runs, which can be read back.
use casper_contract_kit.Base.{ℕ, ◌≡◌, refl, Bytes, List, [], ◌∷◌, ◌==◌, if◌then◌else◌}
use casper_contract_kit.Casper.{Key, EntityAddr}
use casper_contract_kit.Cep18.Badge.{SecurityBadge, admin, minter, none_badge, badge_byte}
use casper_contract_kit.Cep18.Event.{Event}

abbrev key_tag : Key → ℕ
key_tag (Key.account n) = 0
key_tag (Key.hash n) = 1
key_tag (Key.uref n) = 2
key_tag (Key.addressable_entity (EntityAddr.system n)) = 3
key_tag (Key.addressable_entity (EntityAddr.account n)) = 4
key_tag (Key.addressable_entity (EntityAddr.smart_contract n)) = 5
key_tag (Key.smart_contract n) = 6
key_tag (Key.balance n) = 7
key_tag (Key.other n) = 8

abbrev key_number : Key → ℕ
key_number (Key.account n) = n
key_number (Key.hash n) = n
key_number (Key.uref n) = n
key_number (Key.addressable_entity (EntityAddr.system n)) = n
key_number (Key.addressable_entity (EntityAddr.account n)) = n
key_number (Key.addressable_entity (EntityAddr.smart_contract n)) = n
key_number (Key.smart_contract n) = n
key_number (Key.balance n) = n
key_number (Key.other n) = n

abbrev key_of : ℕ → ℕ → Key
key_of tag n =
    if tag == 0
    then Key.account n
    else if tag == 1
    then Key.hash n
    else if tag == 2
    then Key.uref n
    else if tag == 3
    then Key.addressable_entity (EntityAddr.system n)
    else if tag == 4
    then Key.addressable_entity (EntityAddr.account n)
    else if tag == 5
    then Key.addressable_entity (EntityAddr.smart_contract n)
    else if tag == 6
    then Key.smart_contract n
    else if tag == 7
    then Key.balance n
    else Key.other n

pub key_of_lem : (k : Key) → key_of (key_tag k) (key_number k) ≡ k
key_of_lem (Key.account n) = refl
key_of_lem (Key.hash n) = refl
key_of_lem (Key.uref n) = refl
key_of_lem (Key.addressable_entity (EntityAddr.system n)) = refl
key_of_lem (Key.addressable_entity (EntityAddr.account n)) = refl
key_of_lem (Key.addressable_entity (EntityAddr.smart_contract n)) = refl
key_of_lem (Key.smart_contract n) = refl
key_of_lem (Key.balance n) = refl
key_of_lem (Key.other n) = refl

abbrev pub key_bytes : Key → Bytes
key_bytes k = key_tag k ∷ key_number k ∷ []

abbrev first : Bytes → ℕ
first [] = 0
first (b ∷ rest) = b

abbrev rest_of : Bytes → Bytes
rest_of [] = []
rest_of (b ∷ rest) = rest

-- The key at the start of some bytes.
abbrev pub key_at : Bytes → Key
key_at b = key_of (first b) (first (rest_of b))

abbrev after_key : Bytes → Bytes
after_key b = rest_of (rest_of b)

abbrev badge_of : ℕ → SecurityBadge
badge_of n = if n == 0 then admin else if n == 1 then minter else none_badge

badge_of_lem : (b : SecurityBadge) → badge_of (badge_byte b) ≡ b
badge_of_lem admin = refl
badge_of_lem minter = refl
badge_of_lem none_badge = refl

unfoldable pub badges_to : List (Key × SecurityBadge) → Bytes
badges_to [] = []
badges_to ((k, b) ∷ m) = key_tag k ∷ key_number k ∷ badge_byte b ∷ badges_to m

unfoldable pub badges_of : Bytes → List (Key × SecurityBadge)
badges_of [] = []
badges_of (t ∷ []) = []
badges_of (t ∷ n ∷ []) = []
badges_of (t ∷ n ∷ b ∷ rest) = (key_of t n, badge_of b) ∷ badges_of rest

badges_of_lem : (m : List (Key × SecurityBadge)) → badges_of (badges_to m) ≡ m
unfolding badges_of badges_to
badges_of_lem [] = refl
badges_of_lem ((k, b) ∷ m) = rw (key_of_lem k, badge_of_lem b, badges_of_lem m) refl

abbrev pub to_json : Event → Bytes
to_json (Event.mint k n) = 0 ∷ key_tag k ∷ key_number k ∷ n ∷ []
to_json (Event.burn k n) = 1 ∷ key_tag k ∷ key_number k ∷ n ∷ []
to_json (Event.set_allowance j k n) =
    2 ∷ key_tag j ∷ key_number j ∷ key_tag k ∷ key_number k ∷ n ∷ []
to_json (Event.increase_allowance j k n m) =
    3 ∷ key_tag j ∷ key_number j ∷ key_tag k ∷ key_number k ∷ n ∷ m ∷ []
to_json (Event.decrease_allowance j k n m) =
    4 ∷ key_tag j ∷ key_number j ∷ key_tag k ∷ key_number k ∷ n ∷ m ∷ []
to_json (Event.transfer j k n) = 5 ∷ key_tag j ∷ key_number j ∷ key_tag k ∷ key_number k ∷ n ∷ []
to_json (Event.transfer_from i j k n) =
    6 ∷ key_tag i ∷ key_number i ∷ key_tag j ∷ key_number j ∷ key_tag k ∷ key_number k ∷ n ∷ []
to_json (Event.change_security k m) = 7 ∷ key_tag k ∷ key_number k ∷ badges_to m
to_json (Event.change_events_mode n) = 8 ∷ n ∷ []

abbrev pub event_of : Bytes → Event
event_of b =
    let tag = first b in
    let one = rest_of b in
    let two = after_key one in
    let three = after_key two in
    let four = after_key three in
    if tag == 0
    then Event.mint (key_at one) (first two)
    else if tag == 1
    then Event.burn (key_at one) (first two)
    else if tag == 2
    then Event.set_allowance (key_at one) (key_at two) (first three)
    else if tag == 3
    then Event.increase_allowance (key_at one) (key_at two) (first three) (first (rest_of three))
    else if tag == 4
    then Event.decrease_allowance (key_at one) (key_at two) (first three) (first (rest_of three))
    else if tag == 5
    then Event.transfer (key_at one) (key_at two) (first three)
    else if tag == 6
    then Event.transfer_from (key_at one) (key_at two) (key_at three) (first four)
    else if tag == 7
    then Event.change_security (key_at one) (badges_of two)
    else Event.change_events_mode (first one)

pub event_of_lem : (e : Event) → event_of (to_json e) ≡ e
event_of_lem (Event.mint k n) = rw (key_of_lem k) refl
event_of_lem (Event.burn k n) = rw (key_of_lem k) refl
event_of_lem (Event.set_allowance j k n) = rw (key_of_lem j, key_of_lem k) refl
event_of_lem (Event.increase_allowance j k n m) = rw (key_of_lem j, key_of_lem k) refl
event_of_lem (Event.decrease_allowance j k n m) = rw (key_of_lem j, key_of_lem k) refl
event_of_lem (Event.transfer j k n) = rw (key_of_lem j, key_of_lem k) refl
event_of_lem (Event.transfer_from i j k n) = rw (key_of_lem i, key_of_lem j, key_of_lem k) refl
event_of_lem (Event.change_security k m) = rw (key_of_lem k, badges_of_lem m) refl
event_of_lem (Event.change_events_mode n) = refl
