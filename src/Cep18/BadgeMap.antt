-- ===== src/Cep18/BadgeMap.antt =====
-- The map of badges of `change_security` (cep18.rs) and `change_sec_badge` (security.rs).
use casper_contract_kit.Base.{
  ◌≡◌, refl, Option, none, some, List, [], ◌∷◌, Bool, false, ◌||◌, if◌then◌else◌, ok, arith,
}
use casper_contract_kit.Casper.{Key, key_eq}
use casper_contract_kit.Cep18.Badge.{SecurityBadge}
use casper_contract_kit.Cep18.Methods.{map_insert, map_remove, insert_all, change_sec_badge}
use casper_contract_kit.Cep18.Token.{Token, token_store, set_badge}

-- The badge that a map gives a key.
unfoldable pub lookup : Key → List (Key × SecurityBadge) → Option SecurityBadge
lookup k [] = none
lookup k ((j, b) ∷ m) = if key_eq j k then some b else lookup k m

-- No key stands twice.
unfoldable pub IsDistinct : List (Key × SecurityBadge) → Type 0
IsDistinct [] = Unit {0}
IsDistinct ((k, b) ∷ m) = (lookup k m ≡ none) × IsDistinct m

unfoldable pub member : Key → List Key → Bool
member k [] = false
member k (j ∷ list) = key_eq j k || member k list

pub lookup-map_insert :
    (j k : Key) (b : SecurityBadge) (m : List (Key × SecurityBadge))
    → lookup j (map_insert k b m) ≡ (if key_eq k j then some b else lookup j m)
unfolding lookup map_insert
lookup-map_insert j k b [] = ground arith
lookup-map_insert j k b ((i, c) ∷ m) = ground (arith, lookup-map_insert j k b m)

pub map_insert-IsDistinct :
    (k : Key) (b : SecurityBadge) (m : List (Key × SecurityBadge))
    → IsDistinct m
    → IsDistinct (map_insert k b m)
unfolding lookup map_insert IsDistinct
map_insert-IsDistinct k b [] d = (refl, tt)
map_insert-IsDistinct k b ((i, c) ∷ m) (h, d) =
    ground (arith, lookup-map_insert i k b m, map_insert-IsDistinct k b m d)

pub lookup-insert_all :
    (j : Key) (b : SecurityBadge) (list : List Key) (m : List (Key × SecurityBadge))
    → lookup j (insert_all b list m) ≡ (if member j list then some b else lookup j m)
unfolding insert_all member
lookup-insert_all j b [] m = refl
lookup-insert_all j b (k ∷ list) m =
    ground (arith, lookup-insert_all j b list (map_insert k b m), lookup-map_insert j k b m)

pub insert_all-IsDistinct :
    (b : SecurityBadge) (list : List Key) (m : List (Key × SecurityBadge))
    → IsDistinct m
    → IsDistinct (insert_all b list m)
unfolding insert_all
insert_all-IsDistinct b [] m d = d
insert_all-IsDistinct b (k ∷ list) m d =
    insert_all-IsDistinct b list (map_insert k b m) (map_insert-IsDistinct k b m d)

pub lookup-map_remove :
    (j k : Key) (m : List (Key × SecurityBadge))
    → IsDistinct m
    → lookup j (map_remove k m) ≡ (if key_eq k j then none else lookup j m)
unfolding lookup map_remove IsDistinct
lookup-map_remove j k [] d = ground arith
lookup-map_remove j k ((i, c) ∷ m) (h, d) = ground (arith, lookup-map_remove j k m d)

pub map_remove-IsDistinct :
    (k : Key) (m : List (Key × SecurityBadge)) → IsDistinct m → IsDistinct (map_remove k m)
unfolding lookup map_remove IsDistinct
map_remove-IsDistinct k [] d = d
map_remove-IsDistinct k ((i, c) ∷ m) (h, d) =
    ground (arith, lookup-map_remove i k m d, map_remove-IsDistinct k m d)

-- `change_sec_badge` never fails on the token, and gives every key of the map its badge.
unfoldable pub put_all :
    List (Key × SecurityBadge) → (Key → Option SecurityBadge) → Key → Option SecurityBadge
put_all [] f = f
put_all ((k, b) ∷ m) f = put_all m (set_badge k b f)

pub change_sec_badge_eq :
    (m : List (Key × SecurityBadge)) (t : Token)
    → change_sec_badge token_store m t ≡ (ok tt, record t { badge = put_all m t.badge })
unfolding change_sec_badge put_all
change_sec_badge_eq [] t = refl
change_sec_badge_eq ((k, b) ∷ m) t =
    change_sec_badge_eq m (record t { badge = set_badge k b t.badge })

pub put_all_eq :
    (m : List (Key × SecurityBadge)) (f : Key → Option SecurityBadge) (j : Key)
    → IsDistinct m
    → put_all m f j ≡ elim (lookup j m) [ none ↦ f j | some b ↦ some b ]
unfolding put_all lookup IsDistinct
put_all_eq [] f j d = refl
put_all_eq ((k, b) ∷ m) f j (h, d) = ground (arith, put_all_eq m (set_badge k b f) j d)
