-- ===== src/Runs/Calls.antt =====
-- Calls of a contract through its client, and the entry points of the token.
use casper_contract_kit.Base.{ℕ, suc, Bytes, ◌≡◌, refl, some, List, [], ◌∷◌, map, Exec, err}
use casper_contract_kit.Macros.{
  RustType, typed, ItemFn, Named, path, generic, export_args, is_result, entry_point_of,
  into_runtime_args, entry_point,
}
use casper_contract_kit.Macros.Calls.{
  answer, entry_point_of-export_args, entry_point-into_runtime_args,
}
use casper_contract_kit.Cep18.EntryPoints.{
  cl_type, unit_type, entry_points, generate_entry_points, find_entry_point, entry_points_match,
}

abbrev transfer_fn : ItemFn
transfer_fn = record {
  attrs = [];
  ident = "transfer";
  inputs = typed "recipient" (path "Key") ∷ typed "amount" (path "U256") ∷ [];
  output = some (generic "Result" (RustType.other 0));
}

abbrev transfer_args : List Named
transfer_args = ("recipient", path "Key") ∷ ("amount", path "U256") ∷ []

-- A function that counts its calls and fails.
abbrev failing : List Bytes → Exec ℕ ℕ ℕ Bytes
failing values n = (err 7, suc n)

entry_point_of-export_args_example : entry_point_of cl_type unit_type transfer_fn ≡ record {
  name = "transfer";
  args = map (λ a. (a.0, cl_type a.1)) transfer_args;
  ret = cl_type (RustType.other 0);
}
unfolding export_args is_result
entry_point_of-export_args_example =
    entry_point_of-export_args cl_type unit_type transfer_fn transfer_args refl

entry_point-into_runtime_args_example :
    entry_point
      (λ e. e)
      1
      transfer_args
      transfer_fn.output
      failing
      (into_runtime_args transfer_args ((1 ∷ []) ∷ (2 ∷ []) ∷ []))
      4
    ≡ (answer (λ e. e) transfer_fn.output (err 7), 5)
unfolding is_result
entry_point-into_runtime_args_example =
    entry_point-into_runtime_args (λ e. e) 1 transfer_args transfer_fn.output failing
      ((1 ∷ []) ∷ (2 ∷ []) ∷ []) 4 ((refl, tt), (tt, tt)) refl refl

entry_points_match_example :
    find_entry_point "mint" entry_points ≡ find_entry_point "mint" generate_entry_points
entry_points_match_example = entry_points_match "mint"
