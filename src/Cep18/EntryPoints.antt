-- ===== src/Cep18/EntryPoints.antt =====
-- The entry points of the token: crates/contract-extras/src/cep18/entry_points.rs by hand, and those
-- that the contract macro makes of the functions of cep18.rs.
use casper_contract_kit.Base.{
  String, true, false, ◌≡◌, sym, ◌∙◌, Option, none, some, List, [], ◌∷◌, if◌then◌else◌, Bool-cases,
  Option-cases, inl, inr, All, arith,
}
use text.Mathlib.Text.{◌==◌ as str_eq}
use text.Mathlib.TextEquality.{eq_iff}
use casper_contract_kit.Macros.{
  RustType, FnArg, typed, Item, fn, EntryPoint, path, generic, contract_args, ok_type, exports,
  is_export, entry_point_of, entry_points_vec,
}

-- `CLType`: the types of the table.
pub data ClType : Type 0 where
  unit_type string_type u8_type u256_type key_type : ClType

-- `T::cl_type()`
abbrev pub cl_type : RustType → ClType
cl_type (path name) =
    if str_eq name "String"
    then string_type
    else if str_eq name "u8"
    then u8_type
    else if str_eq name "U256"
    then u256_type
    else if str_eq name "Key"
    then key_type
    else unit_type
cl_type (generic _ _) = unit_type
cl_type (RustType.other _) = unit_type

-- `EntryPoint::new(.., Public, Called, Caller)`
abbrev public_entry : String → List (String × ClType) → ClType → EntryPoint ClType
public_entry name args ret = record { name = name; args = args; ret = ret }

abbrev pub init : EntryPoint ClType
init = public_entry "init" [] unit_type

abbrev pub name : EntryPoint ClType
name = public_entry "name" [] string_type

abbrev pub symbol : EntryPoint ClType
symbol = public_entry "symbol" [] string_type

abbrev pub decimals : EntryPoint ClType
decimals = public_entry "decimals" [] u8_type

abbrev pub total_supply : EntryPoint ClType
total_supply = public_entry "total_supply" [] u256_type

abbrev pub balance_of : EntryPoint ClType
balance_of = public_entry "balance_of" (("address", key_type) ∷ []) u256_type

abbrev pub transfer : EntryPoint ClType
transfer = public_entry "transfer" (("recipient", key_type) ∷ ("amount", u256_type) ∷ []) unit_type

abbrev pub approve : EntryPoint ClType
approve = public_entry "approve" (("spender", key_type) ∷ ("amount", u256_type) ∷ []) unit_type

abbrev pub allowance : EntryPoint ClType
allowance = public_entry "allowance" (("owner", key_type) ∷ ("spender", key_type) ∷ []) u256_type

abbrev pub decrease_allowance : EntryPoint ClType
decrease_allowance =
    public_entry "decrease_allowance" (("spender", key_type) ∷ ("amount", u256_type) ∷ []) unit_type

abbrev pub increase_allowance : EntryPoint ClType
increase_allowance =
    public_entry "increase_allowance" (("spender", key_type) ∷ ("amount", u256_type) ∷ []) unit_type

abbrev pub transfer_from : EntryPoint ClType
transfer_from =
    public_entry "transfer_from"
      (("owner", key_type) ∷ ("recipient", key_type) ∷ ("amount", u256_type) ∷ []) unit_type

abbrev pub change_security : EntryPoint ClType
change_security = public_entry "change_security" [] unit_type

abbrev pub burn : EntryPoint ClType
burn = public_entry "burn" (("owner", key_type) ∷ ("amount", u256_type) ∷ []) unit_type

abbrev pub mint : EntryPoint ClType
mint = public_entry "mint" (("owner", key_type) ∷ ("amount", u256_type) ∷ []) unit_type

abbrev pub change_events_mode : EntryPoint ClType
change_events_mode = public_entry "change_events_mode" (("events_mode", u8_type) ∷ []) unit_type

-- `EntryPoints`, by name; an entry point that is added later takes the place of one of its name.
abbrev pub EntryPoints : Type 0
EntryPoints = List (EntryPoint ClType)

unfoldable pub find_entry_point : String → EntryPoints → Option (EntryPoint ClType)
find_entry_point n [] = none
find_entry_point n (e ∷ es) = if str_eq e.name n then some e else find_entry_point n es

abbrev pub add_entry_point : EntryPoints → EntryPoint ClType → EntryPoints
add_entry_point es e = e ∷ es

abbrev pub add_entry_points : EntryPoints → List (EntryPoint ClType) → EntryPoints
add_entry_points es [] = es
add_entry_points es (e ∷ rest) = add_entry_points (add_entry_point es e) rest

unfoldable pub generate_entry_points : EntryPoints
generate_entry_points = add_entry_points [] (
    init ∷ name ∷ symbol ∷ decimals ∷ total_supply ∷ balance_of ∷ transfer ∷ approve ∷ allowance
    ∷ decrease_allowance ∷ increase_allowance ∷ transfer_from ∷ change_security ∷ burn ∷ mint
    ∷ change_events_mode ∷ [])

-- A function of the module `cep18` under `#[casper(export)]` that returns a Result.
abbrev exported : String → List FnArg → RustType → Item
exported name inputs ok = fn (record {
  attrs =
      record {
        last_segment = "casper";
        tokens_ident = some "export";
        mentions_casper = false;
        mentions_export = true;
      }
      ∷ [];
  ident = name;
  inputs = inputs;
  output = some (generic "Result" ok);
})

abbrev pub cep18_items : List Item
cep18_items =
    exported "name" ([]) (path "String")
    ∷ exported "symbol" ([]) (path "String")
    ∷ exported "decimals" ([]) (path "u8")
    ∷ exported "total_supply" ([]) (path "U256")
    ∷ exported "balance_of" (typed "address" (path "Key") ∷ []) (path "U256")
    ∷ exported "allowance" (typed "owner" (path "Key") ∷ typed "spender" (path "Key") ∷ [])
        (path "U256")
    ∷ exported "approve" (typed "spender" (path "Key") ∷ typed "amount" (path "U256") ∷ [])
        (RustType.other 0)
    ∷ exported "decrease_allowance"
        (typed "spender" (path "Key") ∷ typed "amount" (path "U256") ∷ []) (RustType.other 0)
    ∷ exported "increase_allowance"
        (typed "spender" (path "Key") ∷ typed "amount" (path "U256") ∷ []) (RustType.other 0)
    ∷ exported "transfer" (typed "recipient" (path "Key") ∷ typed "amount" (path "U256") ∷ [])
        (RustType.other 0)
    ∷ exported "transfer_from"
        (typed "owner" (path "Key")
          ∷ typed "recipient" (path "Key")
          ∷ typed "amount" (path "U256")
          ∷ [])
        (RustType.other 0)
    ∷ exported "mint" (typed "owner" (path "Key") ∷ typed "amount" (path "U256") ∷ [])
        (RustType.other 0)
    ∷ exported "burn" (typed "owner" (path "Key") ∷ typed "amount" (path "U256") ∷ [])
        (RustType.other 0)
    ∷ exported "init" ([]) (RustType.other 0)
    ∷ exported "change_security" ([]) (RustType.other 0)
    ∷ exported "change_events_mode" (typed "events_mode" (path "u8") ∷ []) (RustType.other 0)
    ∷ []

-- `entry_points()` of the macro: `entry_points_vec().into()`, which adds them one by one.
unfoldable pub entry_points : EntryPoints
entry_points = add_entry_points [] (entry_points_vec cl_type unit_type cep18_items)

-- Every entry of one table is found in the other under its name.
Covers : EntryPoints → EntryPoints → Type 0
Covers es es' = All (λ e. find_entry_point e.name es' ≡ some e) es

find-Covers :
    (n : String) (es es' : EntryPoints) {e : EntryPoint ClType}
    → Covers es es'
    → find_entry_point n es ≡ some e
    → find_entry_point n es' ≡ some e
unfolding Covers find_entry_point
find-Covers n [] es' h p = cc
find-Covers n (x ∷ es) es' h p = elim (Bool-cases (str_eq x.name n)) [
  | inl same ↦ ground (arith, (eq_iff x.name n).0 same)
  | inr other ↦ let rest = rw other at p in find-Covers n es es' h.1 rest
]

manual_covered : Covers generate_entry_points entry_points
unfolding Covers find_entry_point generate_entry_points entry_points entry_points_vec entry_point_of
    contract_args ok_type exports is_export
manual_covered = ground arith

macro_covered : Covers entry_points generate_entry_points
unfolding Covers find_entry_point generate_entry_points entry_points entry_points_vec entry_point_of
    contract_args ok_type exports is_export
macro_covered = ground arith

-- Under every name the macro makes the entry point of the manual table, with the same parameters and
-- the same return type, and none where that has none.
pub entry_points_match :
    (n : String) → find_entry_point n entry_points ≡ find_entry_point n generate_entry_points
entry_points_match n = elim (Option-cases (find_entry_point n generate_entry_points)) [
  | inr (e, found) ↦
      find-Covers n generate_entry_points entry_points manual_covered found ∙ sym found
  | inl missing ↦ elim (Option-cases (find_entry_point n entry_points)) [
    | inl missing' ↦ missing' ∙ sym missing
    | inr (e, found) ↦
        let both = find-Covers n entry_points generate_entry_points macro_covered found in cc
  ]
]
