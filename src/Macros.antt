-- ===== src/Macros.antt =====
-- crates/contract-macros/src/lib.rs: what `#[casper(contract)]` and `#[casper(export)]` make of the
-- functions of a contract module: its entry points, the wrapper behind each of them and the client
-- that calls it. Parsing (syn) and printing (quote) of Rust are not modelled: a function is what syn
-- has parsed, and generated code is what it does when it runs.
pub mod Calls
use casper_contract_kit.Base.{
  ℕ, String, Bytes, Bool, true, false, ◌&&◌, ◌||◌, Option, none, some, List, [], ◌∷◌, map,
  if◌then◌else◌, Exec, Outcome, ok, err, stop, reverted, revert, pure, expect, some_or_panic, ◌>>=◌,
  ◌>>◌,
}
use text.Mathlib.Text.{◌==◌ as str_eq}

-- `Type`: a path by its last segment, the same with a first type argument, or another type.
pub data RustType : Type 0 where
  path : String → RustType
  generic : String → RustType → RustType
  other : ℕ → RustType

-- `FnArg`: `self`, `name: T`, or another pattern.
pub data FnArg : Type 0 where
  receiver : FnArg
  typed : String → RustType → FnArg
  pattern_arg : RustType → FnArg

-- A list attribute `path(tokens)` by the last segment of its path and what its tokens are: a path
-- that is one identifier, or a text that mentions `casper` and `export`.
pub record Attribute : Type 0 where
  pub last_segment : String
  pub tokens_ident : Option String
  pub mentions_casper : Bool
  pub mentions_export : Bool

-- `ItemFn`
pub record ItemFn : Type 0 where
  pub attrs : List Attribute
  pub ident : String
  pub inputs : List FnArg
  pub output : Option RustType

-- `Item`
pub data Item : Type 0 where
  fn : ItemFn → Item
  other_item : Item

-- The compile errors of `export_impl`.
pub data ExportError : Type 0 where
  self_argument unsupported_pattern : ExportError

-- A named argument with its type.
abbrev pub Named : Type 0
Named = String × RustType

pub data Collected : Type 0 where
  collected : List Named → Collected
  compile_error : ExportError → Collected

abbrev pub add_named : Named → Collected → Collected
add_named a (collected rest) = collected (a ∷ rest)
add_named a (compile_error e) = compile_error e

-- The arguments of `export_impl`; the first one that is not supported ends it.
unfoldable pub export_args : List FnArg → Collected
export_args [] = collected []
export_args (receiver ∷ inputs) = compile_error self_argument
export_args (typed name ty ∷ inputs) = add_named (name, ty) (export_args inputs)
export_args (pattern_arg ty ∷ inputs) = compile_error unsupported_pattern

-- The arguments of `contract_impl`, which leaves out what `export_impl` refuses.
unfoldable pub contract_args : List FnArg → List Named
contract_args [] = []
contract_args (receiver ∷ inputs) = contract_args inputs
contract_args (typed name ty ∷ inputs) = (name, ty) ∷ contract_args inputs
contract_args (pattern_arg ty ∷ inputs) = contract_args inputs

-- `has_return` and `is_result`
unfoldable pub has_return : Option RustType → Bool
has_return none = false
has_return (some _) = true

unfoldable pub is_result : Option RustType → Bool
is_result none = false
is_result (some (RustType.path name)) = str_eq name "Result"
is_result (some (generic name _)) = str_eq name "Result"
is_result (some (RustType.other _)) = false

-- The type of what a function returns if it succeeds; `none` is the unit type.
unfoldable pub ok_type : Option RustType → Option RustType
ok_type none = none
ok_type (some (generic name arg)) =
    if str_eq name "Result" then some arg else some (generic name arg)
ok_type (some (RustType.path name)) = some (RustType.path name)
ok_type (some (RustType.other n)) = some (RustType.other n)

unfoldable pub exports : Attribute → Bool
exports a =
    if str_eq a.last_segment "casper"
    then elim a.tokens_ident [ none ↦ false | some i ↦ str_eq i "export" ]
    else (str_eq a.last_segment "unsafe" && (a.mentions_casper && a.mentions_export))

unfoldable pub is_export : List Attribute → Bool
is_export [] = false
is_export (a ∷ attrs) = exports a || is_export attrs

-- `EntityEntryPoint`, whose access, type and payment are `Public`, `Called` and `Caller` in all of
-- them. `CLType` is a parameter.
pub record EntryPoint (ClType : Type 0) : Type 0 where
  pub name : String
  pub args : List (String × ClType)
  pub ret : ClType

module _ {ClType : Type 0} (cl_type : RustType → ClType) (unit_type : ClType) where
  unfoldable pub entry_point_of : ItemFn → EntryPoint ClType
  entry_point_of f = record {
    name = f.ident;
    args = map (λ a. (a.0, cl_type a.1)) (contract_args f.inputs);
    ret = elim (ok_type f.output) [ none ↦ unit_type | some ty ↦ cl_type ty ];
  }

  unfoldable pub entry_points_vec : List Item → List (EntryPoint ClType)
  entry_points_vec [] = []
  entry_points_vec (other_item ∷ items) = entry_points_vec items
  entry_points_vec (fn f ∷ items) =
      let rest = entry_points_vec items in
      if is_export f.attrs then entry_point_of f ∷ rest else rest

-- `RuntimeArgs`: named values in the order of insertion, by their bytes.
abbrev pub RuntimeArgs : Type 0
RuntimeArgs = List (String × Bytes)

unfoldable pub find_arg : String → RuntimeArgs → Option Bytes
find_arg name [] = none
find_arg name ((n, v) ∷ rest) = if str_eq n name then some v else find_arg name rest

-- `into_runtime_args` of the generated `Args`, whose fields are the arguments of `export_impl`.
unfoldable pub into_runtime_args : List Named → List Bytes → RuntimeArgs
into_runtime_args [] values = []
into_runtime_args (a ∷ args) [] = []
into_runtime_args (a ∷ args) (v ∷ values) = (a.0, v) ∷ into_runtime_args args values

-- The generated `entry_point`. The contract's function takes its arguments by their bytes and ends
-- with bytes; `missing` is what `runtime::get_named_arg` reverts with.
module _ {S X E : Type 0} (missing : X) where
  unfoldable pub get_args : List Named → RuntimeArgs → Exec S X E (List Bytes)
  get_args [] given = pure []
  get_args (a ∷ args) given = do
    v ← elim (find_arg a.0 given) [ none ↦ revert missing | some v ↦ pure v ]
    rest ← get_args args given
    pure (v ∷ rest)

module _ {S X E : Type 0} (to_revert : E → X) where
  -- `match ret { Ok(value) => value, Err(err) => revert(err) }`
  unfoldable pub handle_ret : Exec S X E Bytes → Exec S X E Bytes
  handle_ret m s =
      let (r, s') = m s in
      elim r [
        | ok v ↦ (ok v, s')
        | err e ↦ (stop (reverted (to_revert e)), s')
        | stop x ↦ (stop x, s')
      ]

  -- The value that is given to `runtime::ret`, if there is one.
  unfoldable pub entry_point :
      X
      → List Named
      → Option RustType
      → (List Bytes → Exec S X E Bytes)
      → RuntimeArgs
      → Exec S X E (Option Bytes)
  entry_point missing args output body given = do
    values ← get_args missing args given
    ret ← (if is_result output then handle_ret (body values) else body values)
    pure (if has_return output then some ret else none)
