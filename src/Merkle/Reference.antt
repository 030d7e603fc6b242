-- ===== src/Merkle/Reference.antt =====
-- The root of Merkle/merkle.go against a tree with a hash at each node.
use file_transfer_using_libp.Base.{
  ℕ, suc, ◌^◌, ◌%◌, ◌≡◌, refl, ap, ap₂, ◌∙◌, List, [], ◌∷◌, ◌++◌, length, length-append, arith,
}
use file_transfer_using_libp.Crypto.{Crypto, keccak}
use file_transfer_using_libp.Merkle.{next_level}

-- A tree of height `n` in which every leaf is there.
pub data Full : ℕ → Type 0 where
  leaf : List ℕ → Full 0
  both : {n : ℕ} → Full n → Full n → Full (suc n)

-- A tree of height `n` in which leaves are missing only at the right end: a node has a full left
-- subtree and a right one, or only a left one.
pub data Tree : ℕ → Type 0 where
  tip : List ℕ → Tree 0
  fork : {n : ℕ} → Full n → Tree n → Tree (suc n)
  lone : {n : ℕ} → Tree n → Tree (suc n)

abbrev pub full_leaves : {n : ℕ} → Full n → List (List ℕ)
full_leaves (leaf h) = h ∷ []
full_leaves (both l r) = full_leaves l ++ full_leaves r

-- The leaves from left to right.
abbrev pub leaves : {n : ℕ} → Tree n → List (List ℕ)
leaves (tip h) = h ∷ []
leaves (fork l r) = full_leaves l ++ leaves r
leaves (lone l) = leaves l

pub length-full_leaves : {n : ℕ} (t : Full n) → length (full_leaves t) ≡ 2 ^ n
length-full_leaves (leaf h) = omega arith
length-full_leaves {n = suc n} (both l r) = omega (
  arith,
  length-full_leaves l,
  length-full_leaves r,
  length-append {0} (full_leaves l) (full_leaves r),
)

module _ (C : Crypto) where
  abbrev pub full_hash : {n : ℕ} → Full n → List ℕ
  full_hash (leaf h) = h
  full_hash (both l r) = keccak C (full_hash l ∷ full_hash r ∷ [])

  -- The hash of a tree: a node has the hash of its two subtrees, and where there is only the left one,
  -- that counts twice.
  abbrev pub tree_hash : {n : ℕ} → Tree n → List ℕ
  tree_hash (tip h) = h
  tree_hash (fork l r) = keccak C (full_hash l ∷ tree_hash r ∷ [])
  tree_hash (lone l) = keccak C (tree_hash l ∷ tree_hash l ∷ [])

  -- The tree above the leaves.
  abbrev full_above : {n : ℕ} → Full (suc n) → Full n
  full_above (both (leaf h) (leaf k)) = leaf (keccak C (h ∷ k ∷ []))
  full_above (both (both l r) t) = both (full_above (both l r)) (full_above t)

  abbrev pub above : {n : ℕ} → Tree (suc n) → Tree n
  above (fork (leaf h) (tip k)) = tip (keccak C (h ∷ k ∷ []))
  above (fork (both l r) t) = fork (full_above (both l r)) (above t)
  above (lone (tip h)) = tip (keccak C (h ∷ h ∷ []))
  above (lone (fork l r)) = lone (above (fork l r))
  above (lone (lone l)) = lone (above (lone l))

  full_hash-full_above : {n : ℕ} (t : Full (suc n)) → full_hash (full_above t) ≡ full_hash t
  full_hash-full_above (both (leaf h) (leaf k)) = refl
  full_hash-full_above (both (both l r) t) =
      ap₂ (λ x y. keccak C (x ∷ y ∷ [])) (full_hash-full_above (both l r)) (full_hash-full_above t)

  pub tree_hash-above : {n : ℕ} (t : Tree (suc n)) → tree_hash (above t) ≡ tree_hash t
  tree_hash-above (fork (leaf h) (tip k)) = refl
  tree_hash-above (fork (both l r) t) =
      ap₂ (λ x y. keccak C (x ∷ y ∷ [])) (full_hash-full_above (both l r)) (tree_hash-above t)
  tree_hash-above (lone (tip h)) = refl
  tree_hash-above (lone (fork l r)) = ap (λ x. keccak C (x ∷ x ∷ [])) (tree_hash-above (fork l r))
  tree_hash-above (lone (lone l)) = ap (λ x. keccak C (x ∷ x ∷ [])) (tree_hash-above (lone l))

  -- Pairs that are complete do not touch what follows.
  next_level-append :
      (xs ys : List (List ℕ))
      → length xs % 2 ≡ 0
      → next_level C (xs ++ ys) ≡ next_level C xs ++ next_level C ys
  unfolding next_level
  next_level-append [] ys h = refl
  next_level-append (x ∷ []) ys h = absurd (omega arith)
  next_level-append (x ∷ y ∷ xs) ys h =
      ap (λ up. keccak C (x ∷ y ∷ []) ∷ up) (next_level-append xs ys (omega arith))

  full_even : {n : ℕ} (t : Full (suc n)) → length (full_leaves t) % 2 ≡ 0
  full_even {n} t = omega (arith, length-full_leaves t)

  next_level-full_leaves :
      {n : ℕ} (t : Full (suc n)) → next_level C (full_leaves t) ≡ full_leaves (full_above t)
  unfolding next_level
  next_level-full_leaves (both (leaf h) (leaf k)) = refl
  next_level-full_leaves (both (both l r) t) =
      next_level-append (full_leaves (both l r)) (full_leaves t) (full_even (both l r))
      ∙ ap₂ (λ xs ys. xs ++ ys) (next_level-full_leaves (both l r)) (next_level-full_leaves t)

  pub next_level-leaves : {n : ℕ} (t : Tree (suc n)) → next_level C (leaves t) ≡ leaves (above t)
  unfolding next_level
  next_level-leaves (fork (leaf h) (tip k)) = refl
  next_level-leaves (fork (both l r) t) =
      next_level-append (full_leaves (both l r)) (leaves t) (full_even (both l r))
      ∙ ap₂ (λ xs ys. xs ++ ys) (next_level-full_leaves (both l r)) (next_level-leaves t)
  next_level-leaves (lone (tip h)) = refl
  next_level-leaves (lone (fork l r)) = next_level-leaves (fork l r)
  next_level-leaves (lone (lone l)) = next_level-leaves (lone l)
