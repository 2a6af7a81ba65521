-- ===== src/StateHash/Path.antt =====
-- The proof that a path of the state trie gives, and the hash that it computes.
use casper_contract_kit.Base.{
  ℕ, zero, suc, ◌+◌, ◌≤◌, ◌<◌, ◌≡◌, refl, ◌∙◌, ap, sym, ◌⊎◌, inl, inr, Bool, true, false, none,
  some, List, [], ◌∷◌, ◌++◌, map, Bytes, length, All, arith, pure, ◌>>=◌, append_assoc, append-nil,
  length-append, ◌&&◌,
}
use casper_contract_kit.Casper.{ApiError}
use casper_contract_kit.Host.{Action, World}
use casper_contract_kit.StateHash.{
  Pointer, leaf_pointer, node_pointer, PointerBlock, ProofStep, Trie, TrieHost, HashAlgorithm,
  radix, replicate, set, fill_block, from_indexed_pointers, has_index, generic_hash, trie_to_bytes,
  pointer_to, step_bytes, hash_steps, compute_state_hash,
}

-- A node of a trie on the way from a leaf to the root, without the pointer to the node below: the
-- entries before and after it, or the affix above it.
pub data PathNode : Type 0 where
  branch : PointerBlock → PointerBlock → PathNode
  affixed : Bytes → PathNode

-- The node with its pointer.
pub trie_at : Pointer → PathNode → Trie
trie_at p (branch before after) = Trie.node (before ++ some p ∷ after)
trie_at p (affixed affix) = Trie.extension affix p

-- The pointers of a block with their places.
pub indexed : ℕ → PointerBlock → List (ℕ × Pointer)
indexed i [] = []
indexed i (none ∷ ps) = indexed (suc i) ps
indexed i (some p ∷ ps) = (i, p) ∷ indexed (suc i) ps

-- The step of a Merkle proof for a node.
pub proof_step : PathNode → ProofStep
proof_step (branch before after) =
    ProofStep.node (length before) (indexed 0 before ++ indexed (suc (length before)) after)
proof_step (affixed affix) = ProofStep.extension affix

-- A block has 256 entries.
abbrev pub Fits : PathNode → Type 0
Fits (branch before after) = length before + suc (length after) ≡ radix
Fits (affixed affix) = Unit

fill_block-append :
    (xs ys : List (ℕ × Pointer)) (b : PointerBlock)
    → fill_block (xs ++ ys) b ≡ fill_block ys (fill_block xs b)
unfolding fill_block
fill_block-append [] ys b = refl
fill_block-append ((i, p) ∷ xs) ys b = fill_block-append xs ys (set b i (some p))

set_at :
    {A : Type 0} (pre post : List A) (x v : A)
    → set (pre ++ x ∷ post) (length pre) v ≡ pre ++ v ∷ post
set_at [] post x v = refl
set_at (y ∷ pre) post x v = ap (λ t. y ∷ t) (set_at pre post x v)

replicate_split :
    {A : Type 0} (m n : ℕ) (a : A) → replicate (m + n) a ≡ replicate m a ++ replicate n a
replicate_split zero n a = let e : 0 + n ≡ n = omega arith in ap (λ k. replicate k a) e
replicate_split (suc m) n a =
    let e : suc m + n ≡ suc (m + n) = omega arith in
    ap (λ k. replicate k a) e ∙ ap (λ t. a ∷ t) (replicate_split m n a)

-- Filling the places after `pre` with their own entries.
fill_indexed :
    (pre ps post : PointerBlock) (i : ℕ)
    → length pre ≡ i
    → fill_block (indexed i ps) (pre ++ (replicate (length ps) none ++ post)) ≡ pre ++ (ps ++ post)
unfolding fill_block indexed
fill_indexed pre [] post i e = refl
fill_indexed pre (none ∷ ps) post i e =
    let rest = replicate (length ps) none ++ post in
    ap (fill_block (indexed (suc i) ps)) (sym (append_assoc pre (none ∷ []) rest))
    ∙ fill_indexed (pre ++ none ∷ []) ps post (suc i) (omega (arith, length-append pre (none ∷ [])))
    ∙ append_assoc pre (none ∷ []) (ps ++ post)
fill_indexed pre (some p ∷ ps) post i e =
    let rest = replicate (length ps) none ++ post in
    ap (λ k. fill_block (indexed (suc i) ps) (set (pre ++ none ∷ rest) k (some p))) (sym e)
    ∙ ap (fill_block (indexed (suc i) ps)) (set_at pre rest none (some p))
    ∙ ap (fill_block (indexed (suc i) ps)) (sym (append_assoc pre (some p ∷ []) rest))
    ∙ fill_indexed (pre ++ some p ∷ []) ps post (suc i)
        (omega (arith, length-append pre (some p ∷ [])))
    ∙ append_assoc pre (some p ∷ []) (ps ++ post)

has_index-append :
    (n : ℕ) (xs ys : List (ℕ × Pointer))
    → has_index n xs ≡ false
    → has_index n ys ≡ false
    → has_index n (xs ++ ys) ≡ false
unfolding has_index
has_index-append n [] ys h k = k
has_index-append n ((i, p) ∷ xs) ys h k = ground (arith, has_index-append n xs ys)

not_indexed :
    (n i : ℕ) (ps : PointerBlock)
    → (n < i) ⊎ (i + length ps ≤ n)
    → has_index n (indexed i ps) ≡ false
unfolding has_index indexed
not_indexed n i [] h = refl
not_indexed n i (none ∷ ps) h = ground (arith, not_indexed n (suc i) ps)
not_indexed n i (some p ∷ ps) h = ground (arith, not_indexed n (suc i) ps)

fill_after :
    (before after : PointerBlock)
    → fill_block
        (indexed (suc (length before)) after)
        (before ++ none ∷ replicate (length after) none)
      ≡ before ++ none ∷ after
fill_after before after =
    let n = length before in
    let holes = replicate (length after) none in
    let fill = fill_block (indexed (suc n) after) in
    ap (λ t. fill (before ++ none ∷ t)) (sym (append-nil holes))
    ∙ ap fill (sym (append_assoc before (none ∷ []) (holes ++ [])))
    ∙ fill_indexed (before ++ none ∷ []) after [] (suc n)
        (omega (arith, length-append before (none ∷ [])))
    ∙ append_assoc before (none ∷ []) (after ++ [])
    ∙ ap (λ t. before ++ none ∷ t) (append-nil after)

-- The block of a node is made of its indexed pointers and the one that the hole lacked.
block_lem :
    (before after : PointerBlock) (p : Pointer)
    → length before + suc (length after) ≡ radix
    → from_indexed_pointers
        ((indexed 0 before ++ indexed (suc (length before)) after) ++ (length before, p) ∷ [])
      ≡ before ++ some p ∷ after
unfolding from_indexed_pointers fill_block
block_lem before after p fits =
    let n = length before in
    let k = length after in
    let holes = replicate k none in
    let all = (indexed 0 before ++ indexed (suc n) after) ++ (n, p) ∷ [] in
    ap (fill_block all) (ap (λ m. replicate m none) (sym fits) ∙ replicate_split n (suc k) none)
    ∙ fill_block-append (indexed 0 before ++ indexed (suc n) after) ((n, p) ∷ []) _
    ∙ ap (λ b. set b n (some p))
        (fill_block-append (indexed 0 before) (indexed (suc n) after) _
          ∙ ap (fill_block (indexed (suc n) after)) (fill_indexed [] before (none ∷ holes) 0 refl)
          ∙ fill_after before after)
    ∙ set_at before after none (some p)

no_hole :
    (before after : PointerBlock)
    → has_index (length before) (indexed 0 before ++ indexed (suc (length before)) after) ≡ false
no_hole before after =
    let n = length before in
    has_index-append n (indexed 0 before) (indexed (suc n) after)
      (not_indexed n 0 before (inr (omega arith))) (not_indexed n (suc n) after (inl (omega arith)))

and_false : (b : Bool) → b && false ≡ false
and_false true = refl
and_false false = refl

module _ (host : TrieHost) where
  -- The hash of the root, by hashing the nodes of the path one after the other: `p` points to what is
  -- below the first of them, and has the hash `hash`.
  pub root_hash : Pointer → ℕ → List PathNode → Action ApiError ℕ
  root_hash p hash [] = pure hash
  root_hash p hash (n ∷ ns) = do
    bytes ← trie_to_bytes host (trie_at p n)
    hash' ← generic_hash host HashAlgorithm.blake2b bytes
    root_hash (node_pointer hash') hash' ns

  step_bytes-proof_step :
      (debug : Bool) (p : Pointer) (n : PathNode)
      → Fits n
      → step_bytes host debug p (proof_step n) ≡ trie_to_bytes host (trie_at p n)
  unfolding step_bytes proof_step trie_at
  step_bytes-proof_step debug p (branch before after) fits =
      rw (no_hole before after, and_false debug, block_lem before after p fits) refl
  step_bytes-proof_step debug p (affixed affix) fits = refl

  hash_steps-root_hash :
      (debug : Bool) (index hash : ℕ) (ns : List PathNode)
      → All Fits ns
      → hash_steps host debug index hash (map proof_step ns)
        ≡ root_hash (pointer_to index hash) hash ns
  unfolding hash_steps root_hash pointer_to
  hash_steps-root_hash debug index hash [] fits = refl
  hash_steps-root_hash debug index hash (n ∷ ns) fits = λ i.
      step_bytes-proof_step debug (pointer_to index hash) n fits.0 i >>= λ bytes.
      generic_hash host HashAlgorithm.blake2b bytes >>= λ hash'.
      hash_steps-root_hash debug (suc index) hash' ns fits.1 i

  -- For the nodes on the way from a leaf to the root of a trie, each with 256 entries if it is a
  -- block, the Merkle proof of the leaf computes what hashing these nodes one after the other gives,
  -- where the lowest points to the leaf and each other to the node below it: the same hash or the same
  -- error, with and without debug assertions.
  pub compute_state_hash-proof_step :
      (debug : Bool) (leaf : ℕ) (path : List PathNode) (w : World)
      → All Fits path
      → compute_state_hash host debug leaf (map proof_step path) w
        ≡ root_hash (leaf_pointer leaf) leaf path w
  unfolding compute_state_hash pointer_to
  compute_state_hash-proof_step debug leaf path w fits =
      ap (λ m. m w) (hash_steps-root_hash debug 0 leaf path fits)
