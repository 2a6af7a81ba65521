-- ===== src/NamedKey.antt =====
-- crates/contract-api/src/named_key.rs, crates/contract-api/src/typed_uref.rs.
pub mod Cache
pub mod Ops
pub mod Updates
pub mod RoundTrip
pub mod Create
pub mod Values
use casper_contract_kit.Base.{
  ℕ, String, Bytes, Bool, true, false, Option, none, some, List, [], ◌∷◌, Exec, Outcome, ok, err,
  stop, throw, pure, gets, modify, ok_or,
}
use casper_contract_kit.Base.{◌>>=◌, ◌>>◌}
use casper_contract_kit.Casper.{Key, ApiError, into_uref}
use casper_contract_kit.Casper.Codec.{Codec}
use casper_contract_kit.Host.{Host, World, Action, NamedKey, CachedKey, resolved, failed, set_cell}
use casper_contract_kit.Utils.{
  get_key, put_key, remove_key, read_key, write_key, dictionary_put_clvalue, dictionary_get_bytes,
}

-- `NamedKey::from_name`, as the statics use it.
abbrev pub from_name : String → NamedKey
from_name name = record { name = name; copy = 0 }

-- `Clone`: another cell, with the same content.
unfoldable pub clone : NamedKey → ℕ → Action ApiError NamedKey
clone nk copy w = let twin = record nk { copy = copy } in (ok twin, set_cell twin (w.cells nk) w)

module _ (host : Host) where
  -- The cached answer, or the host's, which is cached whether it is a success or a failure.
  keep_answer :
      NamedKey
      → Outcome ApiError ApiError (Option Key) × World
      → Outcome ApiError ApiError (Option Key) × World
  keep_answer nk (ok key, w) = (ok key, set_cell nk (some (resolved key)) w)
  keep_answer nk (err e, w) = (err e, set_cell nk (some (failed e)) w)
  keep_answer nk (stop x, w) = (stop x, w)

  cache : NamedKey → Action ApiError (Option Key)
  unfolding keep_answer
  cache nk w = keep_answer nk (get_key host nk.name w)

  from_cell : NamedKey → Option CachedKey → Action ApiError (Option Key)
  unfolding cache
  from_cell nk none = cache nk
  from_cell nk (some (resolved key)) = pure key
  from_cell nk (some (failed e)) = throw e

  unfoldable pub resolve_key : NamedKey → Action ApiError (Option Key)
  unfolding from_cell
  resolve_key nk w = from_cell nk (w.cells nk) w

  unfoldable pub resolve_uref : NamedKey → Action ApiError (Option ℕ)
  resolve_uref nk = do key ← resolve_key nk; pure (elim key [ none ↦ none | some k ↦ into_uref k ])

  -- `get`
  unfoldable pub get : NamedKey → Action ApiError (Option Key)
  get nk = resolve_key nk

  -- `get_or_init` with the initializer `f`
  init_missing : NamedKey → Action ApiError Key → Option Key → Action ApiError NamedKey
  init_missing nk f (some key) = pure nk
  init_missing nk f none = do key ← f; modify (set_cell nk (some (resolved (some key)))); pure nk

  unfoldable pub get_or_init : NamedKey → Action ApiError Key → Action ApiError NamedKey
  unfolding init_missing
  get_or_init nk f = do key ← resolve_key nk; init_missing nk f key

  -- `take`
  unfoldable pub take : NamedKey → Action ApiError (Option Key)
  take nk = do key ← resolve_key nk; modify (set_cell nk none); pure key

  -- the key, or `ApiError::MissingKey`
  unfoldable pub require_key : NamedKey → Action ApiError Key
  require_key nk = do key ← resolve_key nk; ok_or key ApiError.missing_key

  unfoldable pub require_uref : NamedKey → Action ApiError ℕ
  require_uref nk = do uref ← resolve_uref nk; ok_or uref ApiError.missing_key

  unfoldable pub put_to_named_keys : NamedKey → Action ApiError NamedKey
  put_to_named_keys nk = do key ← require_key nk; put_key host nk.name key; pure nk

  -- `append_to_named_keys`, with the last entry of the map first
  unfoldable pub append_to_named_keys :
      NamedKey → List (String × Key) → Action ApiError (List (String × Key))
  append_to_named_keys nk named_keys = do key ← require_key nk; pure ((nk.name, key) ∷ named_keys)

  -- `set` and `clear`
  unfoldable pub set : NamedKey → Key → Action ApiError (Unit {0})
  set nk key = do modify (set_cell nk (some (resolved (some key)))); put_key host nk.name key

  unfoldable pub clear : NamedKey → Action ApiError (Unit {0})
  clear nk = remove_key host nk.name

  module _ {T : Type 0} (codec : Codec T) where
    -- `read` and `write`, which `TypedURef::read` and `TypedURef::write` call
    unfoldable pub read_found : Option Key → Action ApiError (Option T)
    read_found none = pure none
    read_found (some key) = read_key host codec key

    unfoldable pub read : NamedKey → Action ApiError (Option T)
    read nk = do key ← get nk; read_found key

    unfoldable pub write : NamedKey → T → Action ApiError (Unit {0})
    write nk value = do key ← require_key nk; write_key host codec value key

    -- `put_dict`, through `put_dict_clvalue`
    unfoldable pub put_dict : NamedKey → Bytes → T → Action ApiError (Unit {0})
    put_dict nk item_key value = do
      uref ← require_uref nk
      dictionary_put_clvalue host uref item_key (codec.to_bytes value)

    -- `get_dict`, through `get_bytes`
    unfoldable pub decode_item : Option Bytes → Action ApiError (Option T)
    decode_item none = pure none
    decode_item (some bytes) = do
      value ← ok_or (codec.from_bytes bytes) (codec.refusal bytes)
      pure (some value)

    unfoldable pub get_dict : NamedKey → Bytes → Action ApiError (Option T)
    get_dict nk item_key = do
      uref ← require_uref nk
      bytes ← dictionary_get_bytes host uref item_key
      decode_item bytes

  -- `TypedURef::uref`
  unfoldable pub typed_uref : NamedKey → Action ApiError (Option ℕ)
  typed_uref nk = do key ← get nk; pure (elim key [ none ↦ none | some k ↦ into_uref k ])
