-- ===== src/NamedKey/Cache.antt =====
-- named_key.rs: the cache is transparent while no cell disagrees with the host.
use casper_contract_kit.Base.{◌≡◌, inl, inr, refl, ap, true, some, Bool-cases, Outcome, ok, arith}
use casper_contract_kit.Casper.{ApiError}
use casper_contract_kit.Shim.{Env, HostFunction, record_call}
use casper_contract_kit.Utils.Laws.{get_key_eq}
use casper_contract_kit.Host.{
  Host, World, NamedKey, resolved, set_cell, same_cell, SameHost, IsCoherent,
}
use casper_contract_kit.NamedKey.{keep_answer, resolve_key}
use text.Mathlib.TextEquality.{eq_iff}

pub SameHost-refl : (e : Env) → SameHost e e
SameHost-refl e = ground arith

-- The outcome of a call that leaves the host as it is.
pub record Reads {X E A : Type 0} (host : Host) (w : World) (a : A) (r : Outcome X E A × World)
    : Type 0 where
  pub value : r.0 ≡ ok a
  pub coherent : IsCoherent host r.1
  pub same : SameHost w.env r.1.env

same_cell→name : (a b : NamedKey) → same_cell a b ≡ true → a.name ≡ b.name
same_cell→name a b h = ground (arith, eq_iff a.name b.name)

module _ (host : Host) where
  set_cell-IsCoherent :
      (nk : NamedKey) (w : World)
      → IsCoherent host w
      → IsCoherent host (set_cell nk (some (resolved (w.env.named_keys nk.name))) w)
  set_cell-IsCoherent nk w h = record {
    cells = λ j. elim (Bool-cases (same_cell nk j)) [
      | inl same ↦
          inr (rw same (ap (λ n. some (resolved (w.env.named_keys n))) (same_cell→name nk j same)))
      | inr other ↦ rw other (h.cells j)
    ];
    keys_fit = h.keys_fit;
  }

  -- `resolve_key` gives what the host has under the name, whether it is cached or not, and changes
  -- nothing that a later call could see.
  pub resolve_key-Reads :
      (nk : NamedKey) (w : World)
      → IsCoherent host w
      → Reads {X = ApiError} host w (w.env.named_keys nk.name) (resolve_key host nk w)
  unfolding resolve_key
  resolve_key-Reads nk w h = elim (h.cells nk) [
    | inl empty ↦
        let called = record w { env = record_call (HostFunction.casper_get_key nk.name) w.env } in
        let before : IsCoherent host called = record { cells = h.cells; keys_fit = h.keys_fit } in
        let called_eq = ap (keep_answer host nk) (get_key_eq host nk.name w (h.keys_fit nk.name)) in
        rw (empty, called_eq)
          (record {
            value = refl;
            coherent = set_cell-IsCoherent nk called before;
            same = ground arith;
          })
    | inr cached ↦ rw cached (record { value = refl; coherent = h; same = SameHost-refl w.env })
  ]

  -- After `resolve_key` the cell holds what the host has under the name.
  pub resolve_key-cached :
      (nk : NamedKey) (w : World)
      → IsCoherent host w
      → (resolve_key host nk w).1.cells nk ≡ some (resolved (w.env.named_keys nk.name))
  unfolding resolve_key
  resolve_key-cached nk w h = elim (h.cells nk) [
    | inl empty ↦
        let called_eq = ap (keep_answer host nk) (get_key_eq host nk.name w (h.keys_fit nk.name)) in
        rw (empty, called_eq, own_cell) refl
    | inr cached ↦ rw cached cached
  ]
    where
      own_cell : same_cell nk nk ≡ true
      own_cell = ground (arith, eq_iff nk.name nk.name)
