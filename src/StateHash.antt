-- ===== src/StateHash.antt =====
-- crates/contract-api/src/utils.rs: hashing through the host, the nodes of the state trie and the
-- state hash that a Merkle proof computes. The host's hash function and the serializers of
-- casper_types are parameters.
pub mod Path
pub mod Encoding
pub mod Binding
use casper_contract_kit.Base.{
  ℕ, zero, suc, ◌+◌, Bool, true, false, not, Option, none, some, List, [], ◌∷◌, ◌++◌, ◌⊎◌, Bytes,
  length, ◌==◌, ◌||◌, ◌&&◌, if◌then◌else◌, pure, panic, from_result, ◌>>=◌, ◌>>◌,
}
use casper_contract_kit.Casper.{ApiError}
use casper_contract_kit.Host.{Action}

-- `HashAlgorithm`, and its byte
pub data HashAlgorithm : Type 0 where
  blake2b blake3 sha256 keccak256 : HashAlgorithm

abbrev pub algorithm_byte : HashAlgorithm → ℕ
algorithm_byte HashAlgorithm.blake2b = 0
algorithm_byte HashAlgorithm.blake3 = 1
algorithm_byte HashAlgorithm.sha256 = 2
algorithm_byte HashAlgorithm.keccak256 = 3

-- `Pointer` of casper_types, by its digest
pub data Pointer : Type 0 where
  leaf_pointer node_pointer : ℕ → Pointer

-- `casper_generic_hash` of the host, by the algorithm's byte and the data; and `to_bytes` and
-- `serialized_length` of optional pointers, pointers and affixes.
pub record TrieHost : Type 0 where
  pub casper_generic_hash : ℕ → Bytes → ApiError ⊎ ℕ
  pub allocate_buffer : ℕ → ApiError ⊎ Unit {0}
  pub entry_to_bytes : Option Pointer → ApiError ⊎ Bytes
  pub entry_length : Option Pointer → ℕ
  pub pointer_to_bytes : Pointer → ApiError ⊎ Bytes
  pub pointer_length : Pointer → ℕ
  pub affix_to_bytes : Bytes → ApiError ⊎ Bytes
  pub affix_length : Bytes → ℕ

abbrev pub radix : ℕ
radix = 256

-- `PointerBlock`: an array of `radix` entries
abbrev pub PointerBlock : Type 0
PointerBlock = List (Option Pointer)

pub data Trie : Type 0 where
  node : PointerBlock → Trie
  extension : Bytes → Pointer → Trie

-- `TrieMerkleProofStep`
pub data ProofStep : Type 0 where
  node : ℕ → List (ℕ × Pointer) → ProofStep
  extension : Bytes → ProofStep

abbrev pub replicate : {A : Type 0} → ℕ → A → List A
replicate zero a = []
replicate (suc n) a = a ∷ replicate n a

-- `array[i] = v`; the index is a byte, so within the array.
abbrev pub set : {A : Type 0} → List A → ℕ → A → List A
set [] i v = []
set (x ∷ xs) zero v = v ∷ xs
set (x ∷ xs) (suc i) v = x ∷ set xs i v

unfoldable pub fill_block : List (ℕ × Pointer) → PointerBlock → PointerBlock
fill_block [] block = block
fill_block ((i, p) ∷ rest) block = fill_block rest (set block i (some p))

unfoldable pub from_indexed_pointers : List (ℕ × Pointer) → PointerBlock
from_indexed_pointers indexed_pointers = fill_block indexed_pointers (replicate radix none)

-- `indexed_pointers.iter().find(|(i, _ptr)| *i == hole_index)` is something
unfoldable pub has_index : ℕ → List (ℕ × Pointer) → Bool
has_index hole [] = false
has_index hole ((i, _) ∷ rest) = i == hole || has_index hole rest

-- The pointer of the first step is to the leaf, any later one to a node.
unfoldable pub pointer_to : ℕ → ℕ → Pointer
pointer_to zero hash = leaf_pointer hash
pointer_to (suc index) hash = node_pointer hash

module _ (host : TrieHost) where
  unfoldable pub generic_hash : HashAlgorithm → Bytes → Action ApiError ℕ
  generic_hash algo bytes = from_result (host.casper_generic_hash (algorithm_byte algo) bytes)

  unfoldable pub block_length : PointerBlock → ℕ
  block_length [] = 0
  block_length (p ∷ ps) = host.entry_length p + block_length ps

  -- `PointerBlock::write_bytes`, to what the writer then holds
  unfoldable pub write_block : PointerBlock → Bytes → Action ApiError Bytes
  write_block [] writer = pure writer
  write_block (p ∷ ps) writer = do
    bytes ← from_result (host.entry_to_bytes p)
    write_block ps (writer ++ bytes)

  -- `PointerBlock::to_bytes`
  unfoldable pub block_to_bytes : PointerBlock → Action ApiError Bytes
  block_to_bytes block = do
    from_result (host.allocate_buffer (block_length block))
    write_block block []

  unfoldable pub trie_length : Trie → ℕ
  trie_length (Trie.node pointer_block) = 1 + block_length pointer_block
  trie_length (Trie.extension affix pointer) =
      1 + (host.affix_length affix + host.pointer_length pointer)

  -- `Trie::write_bytes`
  unfoldable pub write_trie : Trie → Bytes → Action ApiError Bytes
  unfolding write_block
  write_trie (Trie.node pointer_block) writer = write_block pointer_block (writer ++ 1 ∷ [])
  write_trie (Trie.extension affix pointer) writer = do
    a ← from_result (host.affix_to_bytes affix)
    p ← from_result (host.pointer_to_bytes pointer)
    pure (((writer ++ 2 ∷ []) ++ a) ++ p)

  unfoldable pub trie_to_bytes : Trie → Action ApiError Bytes
  unfolding write_trie
  trie_to_bytes trie = do from_result (host.allocate_buffer (trie_length trie)); write_trie trie []

  -- `compute_state_hash`; `debug` tells whether debug assertions are compiled in.
  module _ (debug : Bool) where
    unfoldable pub step_bytes : Pointer → ProofStep → Action ApiError Bytes
    step_bytes pointer (ProofStep.node hole_index indexed_pointers) =
        if debug && has_index hole_index indexed_pointers
        then panic
        else trie_to_bytes
            (Trie.node (from_indexed_pointers (indexed_pointers ++ (hole_index, pointer) ∷ [])))
    step_bytes pointer (ProofStep.extension affix) = trie_to_bytes (Trie.extension affix pointer)

    unfoldable pub hash_steps : ℕ → ℕ → List ProofStep → Action ApiError ℕ
    hash_steps index hash [] = pure hash
    hash_steps index hash (step ∷ steps) = do
      bytes ← step_bytes (pointer_to index hash) step
      hash' ← generic_hash HashAlgorithm.blake2b bytes
      hash_steps (suc index) hash' steps

    unfoldable pub compute_state_hash : ℕ → List ProofStep → Action ApiError ℕ
    compute_state_hash trie_leaf_hash proof_steps = hash_steps 0 trie_leaf_hash proof_steps
