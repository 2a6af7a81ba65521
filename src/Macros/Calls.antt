-- ===== src/Macros/Calls.antt =====
-- A call through the generated client reaches the contract's function with the values it was given.
use casper_contract_kit.Base.{
  String, Bytes, Bool, Bool-cases, inl, inr, true, false, ◌≡◌, refl, sym, ap, Option, none, some,
  List, [], ◌∷◌, map, length, All, if◌then◌else◌, Exec, Outcome, ok, err, stop, reverted, pure,
  ◌>>=◌, subst, arith,
}
use text.Mathlib.Text.{◌==◌ as str_eq}
use text.Mathlib.TextEquality.{eq_iff}
use casper_contract_kit.Macros.{
  RustType, FnArg, receiver, typed, pattern_arg, ItemFn, Named, Collected, collected, compile_error,
  add_named, export_args, contract_args, has_return, is_result, ok_type, generic, entry_point_of,
  RuntimeArgs, find_arg, into_runtime_args, get_args, handle_ret, entry_point,
}

-- No argument has the name of another, as Rust demands.
abbrev pub AreDistinct : List Named → Type 0
AreDistinct [] = Unit
AreDistinct (a ∷ args) = All (λ b. str_eq a.0 b.0 ≡ false) args × AreDistinct args

-- The two macros collect the same arguments, if both collect.
abbrev Agree : Collected → List Named → Type 0
Agree (collected args) others = args ≡ others
Agree (compile_error e) others = Unit

add_named-Agree :
    (a : Named) (c : Collected) (others : List Named)
    → Agree c others
    → Agree (add_named a c) (a ∷ others)
add_named-Agree a (collected args) others h = ap (λ t. a ∷ t) h
add_named-Agree a (compile_error e) others h = tt

collect-Agree : (inputs : List FnArg) → Agree (export_args inputs) (contract_args inputs)
unfolding export_args contract_args
collect-Agree [] = refl
collect-Agree (receiver ∷ inputs) = tt
collect-Agree (pattern_arg ty ∷ inputs) = tt
collect-Agree (typed name ty ∷ inputs) =
    add_named-Agree (name, ty) (export_args inputs) (contract_args inputs) (collect-Agree inputs)

module _ {ClType : Type 0} (cl_type : RustType → ClType) (unit_type : ClType) where
  -- The type of what a function hands back, if it succeeds: nothing, the value of the Ok where the
  -- wrapper takes a `Result<T, _>` apart, or else the value that the function returns. A Result that
  -- is written without its arguments does not say what its Ok has, and stands as it is written.
  abbrev pub handed_back : Bool → Option RustType → ClType
  handed_back unwraps none = unit_type
  handed_back true (some (generic name value)) = cl_type value
  handed_back false (some (generic name value)) = cl_type (generic name value)
  handed_back unwraps (some (RustType.path name)) = cl_type (RustType.path name)
  handed_back unwraps (some (RustType.other n)) = cl_type (RustType.other n)

  -- The entry point that a contract declares for a function has the function's name, the parameters
  -- that the function's wrapper reads, in the same order, if the wrapper compiles, and as its return
  -- type the type `T` for a function that returns a `Result<T, _>`, which the wrapper takes apart,
  -- unit for a function without a return type, and otherwise the return type as it is written.
  pub entry_point_of-export_args :
      (f : ItemFn) (args : List Named)
      → export_args f.inputs ≡ collected args
      → entry_point_of cl_type unit_type f ≡ record {
        name = f.ident;
        args = map (λ a. (a.0, cl_type a.1)) args;
        ret = handed_back (is_result f.output) f.output;
      }
  unfolding entry_point_of is_result ok_type
  entry_point_of-export_args f args e =
      let same : args ≡ contract_args f.inputs =
        subst (λ c. Agree c (contract_args f.inputs)) e (collect-Agree f.inputs) in
      λ i. record {
        name = f.ident;
        args = map (λ a. (a.0, cl_type a.1)) (sym same i);
        ret = returned f.output i;
      }
    where
      returned :
          (output : Option RustType)
          → (elim (ok_type output) [ none ↦ unit_type | some ty ↦ cl_type ty ])
            ≡ handed_back (is_result output) output
      returned none = refl
      returned (some (RustType.path name)) = refl
      returned (some (generic name value)) = elim (Bool-cases (str_eq name "Result")) [
        | inl result ↦ rw result refl
        | inr other ↦ rw other refl
      ]
      returned (some (RustType.other n)) = refl

module _ {S X E : Type 0} (missing : X) where
  skip_other :
      (args : List Named) (name : String) (v : Bytes) (given : RuntimeArgs)
      → All (λ b. str_eq name b.0 ≡ false) args
      → get_args {S = S} {E = E} missing args ((name, v) ∷ given) ≡ get_args missing args given
  unfolding get_args find_arg
  skip_other [] name v given h = refl
  skip_other (a ∷ args) name v given h = rw (h.0, skip_other args name v given h.1) refl

  get_args-into_runtime_args :
      (args : List Named) (values : List Bytes)
      → AreDistinct args
      → length args ≡ length values
      → get_args {S = S} {E = E} missing args (into_runtime_args args values) ≡ pure values
  unfolding get_args into_runtime_args find_arg
  get_args-into_runtime_args [] [] h e = refl
  get_args-into_runtime_args [] (v ∷ values) h e = absurd (omega arith)
  get_args-into_runtime_args (a ∷ args) [] h e = absurd (omega arith)
  get_args-into_runtime_args (a ∷ args) (v ∷ values) h e =
      let tail = get_args-into_runtime_args args values h.1 (omega arith) in
      let own : str_eq a.0 a.0 ≡ true = (eq_iff a.0 a.0).1 refl in
      rw (own, skip_other args a.0 v (into_runtime_args args values) h.0, tail) refl

-- What a caller sees of the result of the contract's function.
abbrev pub answer :
    {X E : Type 0} → (E → X) → Option RustType → Outcome X E Bytes → Outcome X E (Option Bytes)
answer to_revert output (ok v) = ok (if has_return output then some v else none)
answer to_revert output (err e) = stop (reverted (to_revert e))
answer to_revert output (stop x) = stop x

module _ {S X E : Type 0} (to_revert : E → X) where
  answered :
      (output : Option RustType) (m : Exec S X E Bytes) (s : S) (r : Outcome X E Bytes)
      → (m s).0 ≡ r
      → (handle_ret to_revert m >>= λ ret. pure (if has_return output then some ret else none)) s
        ≡ (answer to_revert output r, (m s).1)
  unfolding handle_ret
  answered output m s (ok v) h = ground (arith, h)
  answered output m s (err e) h = ground (arith, h)
  answered output m s (stop x) h = ground (arith, h)

  -- The client of a contract passes its values by name, and the wrapper of the function reads them
  -- by name: for a function that returns a Result, whose arguments have different names, the call
  -- runs the function on these values and in their order, gives what an Ok holds, reverts with the
  -- error of an Err, and stops where the function stops.
  pub entry_point-into_runtime_args :
      (missing : X) (args : List Named) (output : Option RustType)
      (body : List Bytes → Exec S X E Bytes) (values : List Bytes) (s : S)
      → AreDistinct args
      → length args ≡ length values
      → is_result output ≡ true
      → entry_point to_revert missing args output body (into_runtime_args args values) s
        ≡ (answer to_revert output (body values s).0, (body values s).1)
  unfolding entry_point
  entry_point-into_runtime_args missing args output body values s distinct same result =
      let read = get_args-into_runtime_args {S = S} {E = E} missing args values distinct same in
      rw (read, result) (answered output (body values) s (body values s).0 refl)
