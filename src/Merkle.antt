-- ===== src/Merkle.antt =====
-- Merkle/merkle.go: the leaf of a chunk, the Merkle tree over the leaves, and its root.
pub mod Shape
pub mod Binding
pub mod Reference
pub mod Heights
pub mod Filled
use file_transfer_using_libp.Base.{
  ℕ, zero, suc, List, [], ◌∷◌, true, false, length, ltb, put_uint32, Result, ok, panic,
}
use file_transfer_using_libp.Protocol.Types.{Chunk}
use file_transfer_using_libp.Crypto.{Crypto, keccak}

-- The last level of a tree that has one: `tree[len(tree)-1]`.
abbrev pub last_level : List (List ℕ) → List (List (List ℕ)) → List (List ℕ)
last_level level [] = level
last_level level (next ∷ rest) = last_level next rest

-- `lastLevel[0]`, which panics where the level is empty.
abbrev pub first_hash : List (List ℕ) → Result (List ℕ)
first_hash [] = panic
first_hash (h ∷ _) = ok h

-- `Root_of_tree`.
unfoldable pub root_of_tree : List (List (List ℕ)) → Result (List ℕ)
root_of_tree [] = ok []
root_of_tree (level ∷ rest) = first_hash (last_level level rest)

module _ (C : Crypto) where
  -- `GenerateLeaf`.
  unfoldable pub generate_leaf : Chunk → List ℕ
  unfolding keccak put_uint32
  generate_leaf c =
      keccak C (c.file_id ∷ put_uint32 c.index ∷ c.nonce ∷ c.ciphertext ∷ c.h_resp ∷ [])

  -- The inner loop of `BuildTree`: two hashes give a parent, a last odd one is paired with itself.
  unfoldable pub next_level : List (List ℕ) → List (List ℕ)
  unfolding keccak
  next_level [] = []
  next_level (left ∷ []) = keccak C (left ∷ left ∷ []) ∷ []
  next_level (left ∷ right ∷ rest) = keccak C (left ∷ right ∷ []) ∷ next_level rest

  -- The outer loop from the level `current` on, with a bound on its rounds.
  unfoldable pub levels : ℕ → List (List ℕ) → List (List (List ℕ))
  unfolding next_level
  levels zero current = current ∷ []
  levels (suc fuel) current =
      current
      ∷ (elim (ltb 1 (length current)) [ true ↦ levels fuel (next_level current) | false ↦ [] ])

  -- `BuildTree`. A level is shorter than the one before it, so `length leaves` rounds are enough.
  unfoldable pub build_tree : List (List ℕ) → List (List (List ℕ))
  unfolding levels
  build_tree [] = []
  build_tree (leaf ∷ leaves) = levels (length (leaf ∷ leaves)) (leaf ∷ leaves)
