-- ===== src/StateHash/Encoding.antt =====
-- The bytes of trie nodes: their length, and that they determine the pointer in the hole.
use casper_contract_kit.Base.{
  ℕ, zero, suc, ◌<◌, ◌≡◌, refl, ◌∙◌, ap, sym, ◌⊎◌, inl, inr, Bool, true, false, Option, none, some,
  List, [], ◌∷◌, ◌++◌, Bytes, length, arith, ◌&&◌, if◌then◌else◌, panic, ok, append_assoc,
  append-nil, append_cancel, length-append,
}
use casper_contract_kit.Casper.{ApiError}
use casper_contract_kit.Host.{Action, World}
use casper_contract_kit.StateHash.{
  Pointer, PointerBlock, ProofStep, Trie, TrieHost, radix, replicate, set, fill_block,
  from_indexed_pointers, has_index, block_length, write_block, write_trie, trie_length,
  trie_to_bytes, step_bytes,
}

-- The documented serialization of pointers: it does not fail, tells pointers apart, and gives all
-- entries that hold a pointer one length.
pub record IsFixedWidth (host : TrieHost) : Type 0 where
  pub entry_bytes : Option Pointer → Bytes
  pub pointer_bytes : Pointer → Bytes
  pub entry_lem : (p : Option Pointer) → host.entry_to_bytes p ≡ inr (entry_bytes p)
  pub pointer_lem : (p : Pointer) → host.pointer_to_bytes p ≡ inr (pointer_bytes p)
  pub entry_width : (p q : Pointer) → length (entry_bytes (some p)) ≡ length (entry_bytes (some q))
  pub entry_injective : (p q : Pointer) → entry_bytes (some p) ≡ entry_bytes (some q) → p ≡ q
  pub pointer_injective : (p q : Pointer) → pointer_bytes p ≡ pointer_bytes q → p ≡ q

-- The hole of a step is a byte.
abbrev pub HasByteHole : ProofStep → Type 0
HasByteHole (ProofStep.node hole _) = hole < radix
HasByteHole (ProofStep.extension _) = Unit

length-set : {A : Type 0} (xs : List A) (i : ℕ) (v : A) → length (set xs i v) ≡ length xs
length-set [] i v = refl
length-set (x ∷ xs) zero v = refl
length-set (x ∷ xs) (suc i) v = ap suc (length-set xs i v)

length-replicate : {A : Type 0} (n : ℕ) (a : A) → length (replicate n a) ≡ n
length-replicate zero a = refl
length-replicate (suc n) a = ap suc (length-replicate n a)

length-fill_block :
    (xs : List (ℕ × Pointer)) (b : PointerBlock) → length (fill_block xs b) ≡ length b
unfolding fill_block
length-fill_block [] b = refl
length-fill_block ((i, p) ∷ xs) b =
    length-fill_block xs (set b i (some p)) ∙ length-set b i (some p)

fill_block_last :
    (xs : List (ℕ × Pointer)) (i : ℕ) (p : Pointer) (b : PointerBlock)
    → fill_block (xs ++ (i, p) ∷ []) b ≡ set (fill_block xs b) i (some p)
unfolding fill_block
fill_block_last [] i p b = refl
fill_block_last ((j, q) ∷ xs) i p b = fill_block_last xs i p (set b j (some q))

from_indexed_pointers_last :
    (ips : List (ℕ × Pointer)) (hole : ℕ) (p : Pointer)
    → from_indexed_pointers (ips ++ (hole, p) ∷ []) ≡ set (from_indexed_pointers ips) hole (some p)
unfolding from_indexed_pointers
from_indexed_pointers_last ips hole p = fill_block_last ips hole p (replicate radix none)

length-from_indexed_pointers :
    (ips : List (ℕ × Pointer)) → length (from_indexed_pointers ips) ≡ radix
unfolding from_indexed_pointers
length-from_indexed_pointers ips =
    length-fill_block ips (replicate radix none) ∙ length-replicate {A = Option Pointer} radix none

module _ (host : TrieHost) (fixed : IsFixedWidth host) where
  open fixed use {
    entry_bytes, pointer_bytes, entry_lem, pointer_lem, entry_width, entry_injective,
    pointer_injective,
  }

  block_bytes : PointerBlock → Bytes
  block_bytes [] = []
  block_bytes (p ∷ ps) = entry_bytes p ++ block_bytes ps

  write_block_lem :
      (ps : PointerBlock) (writer : Bytes) (w : World)
      → write_block host ps writer w ≡ (ok (writer ++ block_bytes ps), w)
  unfolding write_block block_bytes
  write_block_lem [] writer w = ap (λ t. (ok t, w)) (sym (append-nil writer))
  write_block_lem (p ∷ ps) writer w = rw (entry_lem p) (
      write_block_lem ps (writer ++ entry_bytes p) w
      ∙ ap (λ t. (ok t, w)) (append_assoc writer (entry_bytes p) (block_bytes ps)))

  block_bytes_injective :
      (b : PointerBlock) (i : ℕ) (p q : Pointer)
      → i < length b
      → block_bytes (set b i (some p)) ≡ block_bytes (set b i (some q))
      → p ≡ q
  unfolding block_bytes
  block_bytes_injective [] i p q h e = absurd (omega arith)
  block_bytes_injective (x ∷ xs) zero p q h e =
      entry_injective p q (append_cancel _ _ e (entry_width p q)).0
  block_bytes_injective (x ∷ xs) (suc i) p q h e =
      block_bytes_injective xs i p q (omega arith)
        (append_cancel (entry_bytes x) (entry_bytes x) e refl).1

  -- What the bytes of a node are, if they are made.
  block_shape :
      (ps : PointerBlock) (w : World) {bytes : Bytes}
      → (trie_to_bytes host (Trie.node ps) w).0 ≡ ok bytes
      → bytes ≡ 1 ∷ block_bytes ps
  unfolding trie_to_bytes write_trie
  block_shape ps w e = ground (arith, write_block_lem ps (1 ∷ []) w)

  extension_shape :
      (affix : Bytes) (p : Pointer) (w : World) {bytes : Bytes}
      → (trie_to_bytes host (Trie.extension affix p) w).0 ≡ ok bytes
      → (a : Bytes) × (host.affix_to_bytes affix ≡ inr a) × (bytes ≡ 2 ∷ (a ++ pointer_bytes p))
  unfolding trie_to_bytes write_trie
  extension_shape affix p w {bytes} e = of_affix (host.affix_to_bytes affix) refl
    where
      of_affix :
          (r : ApiError ⊎ Bytes)
          → host.affix_to_bytes affix ≡ r
          → (a : Bytes) × (host.affix_to_bytes affix ≡ inr a) × (bytes ≡ 2 ∷ (a ++ pointer_bytes p))
      of_affix (inl x) h = ground (arith, h)
      of_affix (inr a) h = (a, h, ground (arith, h, pointer_lem p))

  unguarded :
      (b : Bool) (m : Action ApiError Bytes) (w : World) {bytes : Bytes}
      → ((if b then panic else m) w).0 ≡ ok bytes
      → (m w).0 ≡ ok bytes
  unguarded true m w e = cc
  unguarded false m w e = e

  -- A step's bytes determine the pointer that it was given.
  pub step_injective :
      (debug : Bool) (p q : Pointer) (step : ProofStep) (w w' : World) {bytes : Bytes}
      → HasByteHole step
      → (step_bytes host debug p step w).0 ≡ ok bytes
      → (step_bytes host debug q step w').0 ≡ ok bytes
      → p ≡ q
  unfolding step_bytes
  step_injective debug p q (ProofStep.node hole ips) w w' h e e' =
      let b = block_shape _ w (unguarded (debug && has_index hole ips) _ w e) in
      let b' = block_shape _ w' (unguarded (debug && has_index hole ips) _ w' e') in
      let same : block_bytes (from_indexed_pointers (ips ++ (hole, p) ∷ []))
          ≡ block_bytes (from_indexed_pointers (ips ++ (hole, q) ∷ [])) =
        cc (sym b ∙ b') in
      block_bytes_injective (from_indexed_pointers ips) hole p q
        (omega (arith, length-from_indexed_pointers ips))
        (ap block_bytes (sym (from_indexed_pointers_last ips hole p))
          ∙ same
          ∙ ap block_bytes (from_indexed_pointers_last ips hole q))
  step_injective debug p q (ProofStep.extension affix) w w' h e e' =
      let (a, f, b) = extension_shape affix p w e in
      let (a', f', b') = extension_shape affix q w' e' in
      let same_affix : a ≡ a' = cc in
      let same : a ++ pointer_bytes p ≡ a' ++ pointer_bytes q = cc in
      pointer_injective p q (append_cancel a a' same (ap length same_affix)).1

-- The documented lengths: `serialized_length` is the length of what `to_bytes` gives.
pub record HasLengths (host : TrieHost) : Type 0 where
  pub entry_length_lem :
      (p : Option Pointer) (b : Bytes)
      → host.entry_to_bytes p ≡ inr b
      → host.entry_length p ≡ length b
  pub pointer_length_lem :
      (p : Pointer) (b : Bytes) → host.pointer_to_bytes p ≡ inr b → host.pointer_length p ≡ length b
  pub affix_length_lem :
      (a : Bytes) (b : Bytes) → host.affix_to_bytes a ≡ inr b → host.affix_length a ≡ length b

module _ (host : TrieHost) (fixed : IsFixedWidth host) (lengths : HasLengths host) where
  block_length_lem : (ps : PointerBlock) → length (block_bytes host fixed ps) ≡ block_length host ps
  unfolding block_bytes block_length
  block_length_lem [] = refl
  block_length_lem (p ∷ ps) = omega (
    arith,
    length-append (fixed.entry_bytes p) (block_bytes host fixed ps),
    lengths.entry_length_lem p (fixed.entry_bytes p) (fixed.entry_lem p),
    block_length_lem ps,
  )

  -- The buffer that is allocated for a trie node has the length of the bytes that are then written.
  pub length-trie_to_bytes :
      (trie : Trie) (w : World) {bytes : Bytes}
      → (trie_to_bytes host trie w).0 ≡ ok bytes
      → length bytes ≡ trie_length host trie
  unfolding trie_length
  length-trie_to_bytes (Trie.node ps) w e =
      omega (arith, ap length (block_shape host fixed ps w e), block_length_lem ps)
  length-trie_to_bytes (Trie.extension affix p) w e =
      let (a, f, b) = extension_shape host fixed affix p w e in
      omega (
        arith,
        ap length b,
        length-append a (fixed.pointer_bytes p),
        lengths.affix_length_lem affix a f,
        lengths.pointer_length_lem p (fixed.pointer_bytes p) (fixed.pointer_lem p),
      )
