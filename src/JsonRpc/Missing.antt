-- ===== src/JsonRpc/Missing.antt =====
-- Which errors of a node mean that an account is missing (crates/rust-sdk/src/jsonrpc.rs).
use casper_contract_kit.Base.{
  ◌≡◌, ◌↔◌, refl, ap, Bool, true, false, Bool-cases, List, [], ◌∷◌, ◌++◌, ◌⊎◌, inl, inr, Bytes,
  ◌==◌, ◌||◌, arith,
}
use casper_contract_kit.JsonRpc.{
  ℤ, pos, negsuc, is_not_found, starts_with, contains, to_ascii_lowercase, is_missing_account_error,
  failed_to_get_account, account_not_found, no_such_account, does_not_exist, missing,
  account_not_found_code,
}

-- A text has a phrase somewhere.
pub Occurs : Bytes → Bytes → Type 0
Occurs text phrase = (before : Bytes) × (after : Bytes) × (text ≡ before ++ (phrase ++ after))

starts_with-Occurs :
    (text phrase : Bytes)
    → starts_with text phrase ≡ true
    → (after : Bytes) × (text ≡ phrase ++ after)
unfolding starts_with
starts_with-Occurs text [] h = (text, refl)
starts_with-Occurs [] (p ∷ phrase) h = cc
starts_with-Occurs (b ∷ text) (p ∷ phrase) h = elim (Bool-cases (b == p)) [
  | inl same ↦
      let (after, e) = starts_with-Occurs text phrase (ground (arith, h, same)) in
      (after, ground (arith, same, e))
  | inr other ↦ ground (arith, h, other)
]

contains_sound : (text phrase : Bytes) → contains text phrase ≡ true → Occurs text phrase
unfolding contains Occurs
contains_sound [] phrase h = let (after, e) = starts_with-Occurs [] phrase h in ([], after, e)
contains_sound (b ∷ text) phrase h = elim (Bool-cases (starts_with (b ∷ text) phrase)) [
  | inl here ↦ let (after, e) = starts_with-Occurs (b ∷ text) phrase here in ([], after, e)
  | inr there ↦
      let (before, after, e) = contains_sound text phrase (ground (arith, h, there)) in
      (b ∷ before, after, ap (λ t. b ∷ t) e)
]

starts_with_append : (phrase after : Bytes) → starts_with (phrase ++ after) phrase ≡ true
unfolding starts_with
starts_with_append [] after = refl
starts_with_append (p ∷ phrase) after = rw (starts_with_append phrase after) (ground arith)

contains_here : (text phrase : Bytes) → starts_with text phrase ≡ true → contains text phrase ≡ true
unfolding contains
contains_here [] phrase h = h
contains_here (b ∷ text) phrase h = rw h refl

contains_complete :
    (before after phrase : Bytes) → contains (before ++ (phrase ++ after)) phrase ≡ true
unfolding contains
contains_complete [] after phrase =
    contains_here (phrase ++ after) phrase (starts_with_append phrase after)
contains_complete (b ∷ before) after phrase = ground (arith, contains_complete before after phrase)

contains-Occurs : (text phrase : Bytes) → (contains text phrase ≡ true) ↔ Occurs text phrase
unfolding Occurs
contains-Occurs text phrase =
    (contains_sound text phrase, λ (before, after, e). rw e (contains_complete before after phrase))

-- The texts that a node has for a missing account.
abbrev pub phrases : List Bytes
phrases =
    failed_to_get_account ∷ account_not_found ∷ no_such_account ∷ does_not_exist ∷ missing ∷ []

any_phrase : Bytes → List Bytes → Bool
any_phrase text [] = false
any_phrase text (p ∷ ps) = contains text p || any_phrase text ps

-- One of some phrases occurs in a text.
abbrev pub AnyOccurs : Bytes → List Bytes → Type 0
AnyOccurs text [] = ⊥
AnyOccurs text (p ∷ ps) = Occurs text p ⊎ AnyOccurs text ps

any_phrase-AnyOccurs :
    (text : Bytes) (ps : List Bytes) → (any_phrase text ps ≡ true) ↔ AnyOccurs text ps
unfolding any_phrase
any_phrase-AnyOccurs text [] = (λ e. cc, λ o. absurd o)
any_phrase-AnyOccurs text (p ∷ ps) =
    let rest = any_phrase-AnyOccurs text ps in
    let here = contains-Occurs text p in
    (
      λ h. elim (Bool-cases (contains text p)) [
        | inl found ↦ inl (here.0 found)
        | inr none ↦ inr (rest.0 (ground (arith, h, none)))
      ],
      λ o. elim o [
        | inl found ↦ ground (arith, here.1 found)
        | inr later ↦ ground (arith, rest.1 later)
      ],
    )

code_lem : (code : ℤ) → (is_not_found code ≡ true) ↔ (code ≡ account_not_found_code)
code_lem (pos n) = (λ e. cc, λ e. cc)
code_lem (negsuc n) = (λ e. ground (arith, e), λ e. ground (arith, e))

-- An error means that the account is missing exactly if it has the code of a missing account, or one
-- of the phrases occurs in its message, in any case of letters.
pub is_missing_account_error_iff :
    (code : ℤ) (message : Bytes)
    → (is_missing_account_error code message ≡ true)
      ↔ ((code ≡ account_not_found_code) ⊎ AnyOccurs (to_ascii_lowercase message) phrases)
unfolding is_missing_account_error any_phrase
is_missing_account_error_iff code message =
    let any = any_phrase-AnyOccurs (to_ascii_lowercase message) phrases in
    (
      λ h. elim (Bool-cases (is_not_found code)) [
        | inl found ↦ inl ((code_lem code).0 found)
        | inr other ↦ inr (any.0 (ground (arith, h, other)))
      ],
      λ o. elim o [
        | inl same ↦ ground (arith, (code_lem code).1 same)
        | inr found ↦ ground (arith, any.1 found)
      ],
    )
