-- ===== src/Runs/Trie.antt =====
-- A small state trie with its proof, and a hash function that collides.
use casper_contract_kit.Base.{
  ℕ, ◌+◌, ◌%◌, ◌≡◌, refl, inr, true, false, Option, none, some, List, [], ◌∷◌, map, Bytes, length,
  arith,
}
use casper_contract_kit.Runs.Storage.{world}
use casper_contract_kit.StateHash.{
  Pointer, leaf_pointer, node_pointer, ProofStep, Trie, TrieHost, replicate, generic_hash,
  from_indexed_pointers, fill_block, pointer_to, write_trie, trie_length, trie_to_bytes, step_bytes,
  hash_steps, compute_state_hash,
}
use casper_contract_kit.StateHash.Path.{
  PathNode, branch, affixed, proof_step, root_hash, compute_state_hash-proof_step,
}
use casper_contract_kit.StateHash.Encoding.{IsFixedWidth, HasLengths, length-trie_to_bytes}
use casper_contract_kit.StateHash.Binding.{Collision, compute_state_hash_binding}

abbrev pointer_bytes : Pointer → Bytes
pointer_bytes (leaf_pointer d) = 0 ∷ d ∷ []
pointer_bytes (node_pointer d) = 1 ∷ d ∷ []

abbrev entry_bytes : Option Pointer → Bytes
entry_bytes none = 0 ∷ []
entry_bytes (some p) = 1 ∷ pointer_bytes p

abbrev total : Bytes → ℕ
total [] = 0
total (b ∷ bs) = b + total bs

-- The hash is the sum of the bytes.
abbrev sum_host : TrieHost
sum_host = record {
  casper_generic_hash = λ _ bytes. inr (total bytes);
  allocate_buffer = λ _. inr tt;
  entry_to_bytes = λ p. inr (entry_bytes p);
  entry_length = λ p. length (entry_bytes p);
  pointer_to_bytes = λ p. inr (pointer_bytes p);
  pointer_length = λ p. length (pointer_bytes p);
  affix_to_bytes = λ a. inr (length a ∷ a);
  affix_length = λ a. length a + 1;
}

pointer_bytes_injective : (p q : Pointer) → pointer_bytes p ≡ pointer_bytes q → p ≡ q
pointer_bytes_injective (leaf_pointer d) (leaf_pointer e) h = cc
pointer_bytes_injective (leaf_pointer d) (node_pointer e) h = ground arith
pointer_bytes_injective (node_pointer d) (leaf_pointer e) h = ground arith
pointer_bytes_injective (node_pointer d) (node_pointer e) h = cc

length-pointer_bytes : (p : Pointer) → length (pointer_bytes p) ≡ 2
length-pointer_bytes (leaf_pointer d) = refl
length-pointer_bytes (node_pointer d) = refl

sum_fixed : IsFixedWidth sum_host
sum_fixed = record {
  entry_bytes = entry_bytes;
  pointer_bytes = pointer_bytes;
  entry_lem = λ p. refl;
  pointer_lem = λ p. refl;
  entry_width = λ p q. omega (arith, length-pointer_bytes p, length-pointer_bytes q);
  entry_injective = λ p q h. pointer_bytes_injective p q (cc);
  pointer_injective = pointer_bytes_injective;
}

sum_lengths : HasLengths sum_host
sum_lengths = record {
  entry_length_lem = λ p b h. ground arith;
  pointer_length_lem = λ p b h. ground arith;
  affix_length_lem = λ a b h. ground arith;
}

abbrev small_path : List PathNode
small_path =
    branch (some (leaf_pointer 9) ∷ none ∷ []) (replicate 253 none) ∷ affixed (4 ∷ 5 ∷ []) ∷ []

compute_state_hash-proof_step_example :
    compute_state_hash sum_host true 6 (map proof_step small_path) world
    ≡ root_hash sum_host (leaf_pointer 6) 6 small_path world
compute_state_hash-proof_step_example =
    compute_state_hash-proof_step sum_host true 6 small_path world (omega arith)

length-trie_to_bytes_example :
    length {A = ℕ} (2 ∷ 2 ∷ 4 ∷ 5 ∷ 0 ∷ 6 ∷ [])
    ≡ trie_length sum_host (Trie.extension (4 ∷ 5 ∷ []) (leaf_pointer 6))
unfolding trie_to_bytes write_trie
length-trie_to_bytes_example =
    length-trie_to_bytes sum_host sum_fixed sum_lengths
      (Trie.extension (4 ∷ 5 ∷ []) (leaf_pointer 6)) world {bytes = 2 ∷ 2 ∷ 4 ∷ 5 ∷ 0 ∷ 6 ∷ []} refl

-- The sum forgets the place of a byte, and here the parity.
abbrev parity_host : TrieHost
parity_host = record sum_host { casper_generic_hash = λ _ bytes. inr (total bytes % 2) }

parity_fixed : IsFixedWidth parity_host
parity_fixed = record {
  entry_bytes = entry_bytes;
  pointer_bytes = pointer_bytes;
  entry_lem = λ p. refl;
  pointer_lem = λ p. refl;
  entry_width = λ p q. omega (arith, length-pointer_bytes p, length-pointer_bytes q);
  entry_injective = λ p q h. pointer_bytes_injective p q (cc);
  pointer_injective = pointer_bytes_injective;
}

abbrev small_steps : List ProofStep
small_steps = ProofStep.extension (4 ∷ []) ∷ ProofStep.node 5 ((3, leaf_pointer 9) ∷ []) ∷ []

compute_state_hash_binding_example : Collision parity_host
unfolding compute_state_hash hash_steps step_bytes trie_to_bytes write_trie generic_hash
    from_indexed_pointers fill_block pointer_to
compute_state_hash_binding_example =
    compute_state_hash_binding parity_host parity_fixed false 6 8 small_steps world world {root = 0}
      (omega arith) (omega arith) refl refl
