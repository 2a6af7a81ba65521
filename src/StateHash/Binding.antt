-- ===== src/StateHash/Binding.antt =====
-- What a Merkle proof commits to: two leaves with one proof and one state hash show a collision.
use casper_contract_kit.Base.{
  ℕ, zero, suc, ◌≡◌, ◌≢◌, ◌∙◌, ap, sym, inr, Bool, List, [], ◌∷◌, Bytes, All, arith, ok, ◌>>=◌,
  bind-eq-ok,
}
use casper_contract_kit.Host.{World}
use native.Mathlib.Decide.{ℕ_discrete}
use casper_contract_kit.StateHash.{
  ProofStep, TrieHost, HashAlgorithm, generic_hash, pointer_to, step_bytes, hash_steps,
  compute_state_hash,
}
use casper_contract_kit.StateHash.Encoding.{IsFixedWidth, HasByteHole, step_injective}

-- Two different byte strings with one Blake2b hash.
pub record Collision (host : TrieHost) : Type 0 where
  pub first : Bytes
  pub second : Bytes
  pub digest : ℕ
  pub differ : first ≢ second
  pub hash_first : host.casper_generic_hash 0 first ≡ inr digest
  pub hash_second : host.casper_generic_hash 0 second ≡ inr digest

module _ (host : TrieHost) (fixed : IsFixedWidth host) where
  pointer_to_injective :
      (index hash hash' : ℕ) → pointer_to index hash ≡ pointer_to index hash' → hash ≡ hash'
  unfolding pointer_to
  pointer_to_injective zero hash hash' e = cc
  pointer_to_injective (suc index) hash hash' e = cc

  hashed :
      (bytes : Bytes) (w : World) {d : ℕ}
      → (generic_hash host HashAlgorithm.blake2b bytes w).0 ≡ ok d
      → host.casper_generic_hash 0 bytes ≡ inr d
  unfolding generic_hash
  hashed bytes w e = ground arith

  -- What a first step that ends well has done.
  hashed_step :
      (debug : Bool) (index hash : ℕ) (step : ProofStep) (steps : List ProofStep) (w : World)
      {root : ℕ}
      → (hash_steps host debug index hash (step ∷ steps) w).0 ≡ ok root
      → (bytes : Bytes) × (d : ℕ) × (v : World) × ((step_bytes host debug
            (pointer_to index hash)
            step
            w).0
          ≡ ok bytes)
        × (host.casper_generic_hash 0 bytes ≡ inr d)
        × ((hash_steps host debug (suc index) d steps v).0 ≡ ok root)
  unfolding hash_steps
  hashed_step debug index hash step steps w {root} e =
      let rest = λ (d : ℕ). hash_steps host debug (suc index) d steps in
      let (bytes, made, after) =
        bind-eq-ok (step_bytes host debug (pointer_to index hash) step)
          (λ bytes. generic_hash host HashAlgorithm.blake2b bytes >>= rest) w {b = root} e in
      let v = (step_bytes host debug (pointer_to index hash) step w).1 in
      let (d, hash_of, last) =
        bind-eq-ok (generic_hash host HashAlgorithm.blake2b bytes) rest v {b = root} after in
      (bytes, d, _, made, hashed bytes v hash_of, last)

  two_leaves :
      (debug : Bool) (index hash hash' : ℕ) (steps : List ProofStep) (w w' : World) {root : ℕ}
      → All HasByteHole steps
      → hash ≢ hash'
      → (hash_steps host debug index hash steps w).0 ≡ ok root
      → (hash_steps host debug index hash' steps w').0 ≡ ok root
      → Collision host
  unfolding hash_steps
  two_leaves debug index hash hash' [] w w' h differ e e' = absurd (differ (cc))
  two_leaves debug index hash hash' (step ∷ steps) w w' h differ e e' =
      let (bytes, d, v, made, hash_of, rest) = hashed_step debug index hash step steps w e in
      let (bytes', d', v', made', hash_of', rest') =
        hashed_step debug index hash' step steps w' e' in
      elim (ℕ_discrete d d') [
        | no other ↦ two_leaves debug (suc index) d d' steps v v' h.1 other rest rest'
        | yes same ↦ record {
          first = bytes;
          second = bytes';
          digest = d;
          differ = λ p. differ (
              pointer_to_injective index hash hash'
                (step_injective host fixed debug _ _ step w w' h.0 made (made' ∙ ap ok (sym p))));
          hash_first = hash_of;
          hash_second = hash_of' ∙ ap inr (sym same);
        }
      ]

  -- If one proof leads from two different leaf hashes to the same state hash, then two different
  -- byte strings with the same Blake2b hash are at hand: a proof cannot be moved to another leaf.
  -- The places of the holes are bytes.
  pub compute_state_hash_binding :
      (debug : Bool) (leaf leaf' : ℕ) (steps : List ProofStep) (w w' : World) {root : ℕ}
      → All HasByteHole steps
      → leaf ≢ leaf'
      → (compute_state_hash host debug leaf steps w).0 ≡ ok root
      → (compute_state_hash host debug leaf' steps w').0 ≡ ok root
      → Collision host
  unfolding compute_state_hash
  compute_state_hash_binding debug leaf leaf' steps w w' h differ e e' =
      two_leaves debug 0 leaf leaf' steps w w' h differ e e'
