-- ===== src/Collections/Base128/Loops.antt =====
-- The inner `while` of both functions of base128.rs ends.
use casper_contract_kit.Base.{
  ℕ, zero, suc, ◌≤◌, ◌<◌, ◌≡◌, refl, ◌∙◌, ◌⊎◌, inl, inr, true, false, Bool-cases, ltb,
  if◌then◌else◌, arith,
}
use casper_contract_kit.Collections.Base128.{Buffer, take_group, take_groups, drain}

module _ (width mask : ℕ) (positive : 0 < width) where
  -- More rounds than the buffer has bits change nothing.
  same_rounds :
      (fuel fuel' : ℕ) (b : Buffer)
      → b.bits_in_buffer ≤ fuel
      → b.bits_in_buffer ≤ fuel'
      → take_groups fuel width mask b ≡ take_groups fuel' width mask b
  unfolding take_groups take_group
  same_rounds zero zero b h h' = refl
  same_rounds zero (suc fuel') b h h' = ground (arith, positive)
  same_rounds (suc fuel) zero b h h' = ground (arith, positive)
  same_rounds (suc fuel) (suc fuel') b h h' = elim (Bool-cases (ltb b.bits_in_buffer width)) [
    | inl few ↦ ground (arith, few)
    | inr enough ↦
        let next = take_group width mask b in
        let rest =
          same_rounds fuel fuel' next (ground (arith, positive, enough))
            (ground (arith, positive, enough)) in
        ground (arith, enough, rest)
  ]

  few_left :
      (fuel : ℕ) (b : Buffer)
      → b.bits_in_buffer ≤ fuel
      → (take_groups fuel width mask b).bits_in_buffer < width
  unfolding take_groups take_group
  few_left zero b h = omega (arith, positive)
  few_left (suc fuel) b h = elim (Bool-cases (ltb b.bits_in_buffer width)) [
    | inl few ↦ ground (arith, few)
    | inr enough ↦
        let rest = few_left fuel (take_group width mask b) (ground (arith, positive, enough)) in
        ground (arith, enough, rest)
  ]

  -- If a round takes bits at all, the loop runs as a `while` does, for any mask and any buffer: it ends
  -- at once if there are too few bits for a round, else it goes on after one round, and it ends with
  -- too few bits for another one.
  pub drain_terminates :
      (b : Buffer)
      → (drain width mask b
          ≡ (if ltb b.bits_in_buffer width then b else drain width mask (take_group width mask b)))
        × ((drain width mask b).bits_in_buffer < width)
  unfolding take_groups take_group
  drain_terminates b =
      let one_more =
        same_rounds b.bits_in_buffer (suc b.bits_in_buffer) b (omega arith) (omega arith) in
      (
        one_more ∙ by_bits (Bool-cases (ltb b.bits_in_buffer width)),
        few_left b.bits_in_buffer b (omega arith),
      )
    where
      next : Buffer
      next = take_group width mask b

      by_bits :
          (ltb b.bits_in_buffer width ≡ true) ⊎ (ltb b.bits_in_buffer width ≡ false)
          → take_groups (suc b.bits_in_buffer) width mask b
            ≡ (if ltb b.bits_in_buffer width then b else drain width mask next)
      by_bits (inl few) = ground (arith, few)
      by_bits (inr enough) =
          let rest =
            same_rounds b.bits_in_buffer next.bits_in_buffer next (ground arith) (ground arith) in
          ground (arith, enough, rest)
