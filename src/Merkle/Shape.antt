-- ===== src/Merkle/Shape.antt =====
-- The levels of a Merkle tree: how long they are, and where the loop ends.
use file_transfer_using_libp.Base.{
  ℕ, zero, suc, ◌+◌, ◌/◌, ◌≤◌, ◌<◌, ◌≡◌, refl, sym, ap, ◌∙◌, false, List, [], ◌∷◌, length, ltb,
  lt→ltb, arith, ok,
}
use file_transfer_using_libp.Crypto.{Crypto}
use file_transfer_using_libp.Merkle.{
  last_level, first_hash, root_of_tree, next_level, levels, build_tree,
}

-- The last level of a tree, or nothing.
abbrev top : List (List (List ℕ)) → List (List ℕ)
top [] = []
top (level ∷ rest) = last_level level rest

not_longer : (n : ℕ) → n ≤ 1 → ltb 1 n ≡ false
not_longer n h = ground arith

module _ (C : Crypto) where
  -- A level has half as many hashes as the one before it, rounded up.
  pub length-next_level : (xs : List (List ℕ)) → length (next_level C xs) ≡ (length xs + 1) / 2
  unfolding next_level
  length-next_level [] = refl
  length-next_level (x ∷ []) = refl
  length-next_level (x ∷ y ∷ xs) = omega (arith, length-next_level xs)

  last-levels :
      (fuel : ℕ) (level xs : List (List ℕ))
      → last_level level (levels C fuel xs) ≡ top (levels C fuel xs)
  unfolding levels
  last-levels zero level xs = refl
  last-levels (suc fuel) level xs = refl

  top_done : (fuel : ℕ) (xs : List (List ℕ)) → length xs ≤ 1 → top (levels C fuel xs) ≡ xs
  unfolding levels
  top_done zero xs h = refl
  top_done (suc fuel) xs h = rw (not_longer (length xs) h)

  top_step :
      (fuel : ℕ) (xs : List (List ℕ))
      → 1 < length xs
      → top (levels C (suc fuel) xs) ≡ top (levels C fuel (next_level C xs))
  top_step fuel xs h =
      unfold levels in rw (lt→ltb 1 (length xs) h) (last-levels fuel xs (next_level C xs))

  -- With enough fuel the loop ends at a level of one hash.
  top_single :
      (fuel : ℕ) (xs : List (List ℕ))
      → 1 ≤ length xs
      → length xs ≤ suc fuel
      → (h : List ℕ) × (top (levels C fuel xs) ≡ h ∷ [])
  top_single fuel [] lo hi = absurd (omega arith)
  top_single fuel (x ∷ []) lo hi = (x, top_done fuel (x ∷ []) (omega arith))
  top_single zero (x ∷ y ∷ xs) lo hi = absurd (omega arith)
  top_single (suc fuel) (x ∷ y ∷ xs) lo hi =
      let n = length-next_level (x ∷ y ∷ xs) in
      let (h, e) =
        top_single fuel (next_level C (x ∷ y ∷ xs)) (omega (arith, n)) (omega (arith, n)) in
      (h, top_step fuel (x ∷ y ∷ xs) (omega arith) ∙ e)

  -- More fuel changes nothing.
  top_fuel :
      (fuel more : ℕ) (xs : List (List ℕ))
      → length xs ≤ suc fuel
      → length xs ≤ suc more
      → top (levels C fuel xs) ≡ top (levels C more xs)
  top_fuel fuel more [] h k = top_done fuel [] (omega arith) ∙ sym (top_done more [] (omega arith))
  top_fuel fuel more (x ∷ []) h k =
      top_done fuel (x ∷ []) (omega arith) ∙ sym (top_done more (x ∷ []) (omega arith))
  top_fuel zero more (x ∷ y ∷ xs) h k = absurd (omega arith)
  top_fuel (suc fuel) zero (x ∷ y ∷ xs) h k = absurd (omega arith)
  top_fuel (suc fuel) (suc more) (x ∷ y ∷ xs) h k =
      let n = length-next_level (x ∷ y ∷ xs) in
      top_step fuel (x ∷ y ∷ xs) (omega arith)
      ∙ top_fuel fuel more (next_level C (x ∷ y ∷ xs)) (omega (arith, n)) (omega (arith, n))
      ∙ sym (top_step more (x ∷ y ∷ xs) (omega arith))

  root-levels :
      (fuel : ℕ) (xs : List (List ℕ))
      → root_of_tree (levels C fuel xs) ≡ first_hash (top (levels C fuel xs))
  unfolding root_of_tree levels
  root-levels zero xs = refl
  root-levels (suc fuel) xs = refl

  -- The root of a tree that is not empty, as the first hash of its last level.
  root_top :
      (xs : List (List ℕ))
      → 1 ≤ length xs
      → root_of_tree (build_tree C xs) ≡ first_hash (top (levels C (length xs) xs))
  unfolding build_tree
  root_top [] h = absurd (omega arith)
  root_top (x ∷ xs) h = root-levels (length (x ∷ xs)) (x ∷ xs)

  -- Every list of leaves that is not empty has a root: `Root_of_tree` does not panic on it.
  pub root_of_tree-build_tree :
      (xs : List (List ℕ))
      → 1 ≤ length xs
      → (root : List ℕ) × (root_of_tree (build_tree C xs) ≡ ok root)
  root_of_tree-build_tree xs h =
      let (root, e) = top_single (length xs) xs h (omega arith) in
      (root, root_top xs h ∙ ap first_hash e)

  -- The root of one leaf is the leaf.
  pub root_single : (x : List ℕ) → root_of_tree (build_tree C (x ∷ [])) ≡ ok x
  root_single x =
      root_top (x ∷ []) (omega arith) ∙ ap first_hash (top_done 1 (x ∷ []) (omega arith))

  -- The root of several leaves is the root of the level above them.
  pub root_next_level :
      (xs : List (List ℕ))
      → 1 < length xs
      → root_of_tree (build_tree C xs) ≡ root_of_tree (build_tree C (next_level C xs))
  root_next_level [] h = absurd (omega arith)
  root_next_level (x ∷ xs) h =
      let n = length-next_level (x ∷ xs) in
      let up = next_level C (x ∷ xs) in
      root_top (x ∷ xs) (omega arith)
      ∙ ap first_hash (top_step (length xs) (x ∷ xs) h)
      ∙ ap first_hash (top_fuel (length xs) (length up) up (omega (arith, n)) (omega arith))
      ∙ sym (root_top up (omega (arith, n)))
