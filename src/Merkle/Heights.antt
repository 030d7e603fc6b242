-- ===== src/Merkle/Heights.antt =====
-- `BuildTree` and `Root_of_tree` on any leaves, as the hash of a tree.
use file_transfer_using_libp.Base.{
  ℕ, zero, suc, ◌^◌, ◌≤◌, ◌<◌, ◌≡◌, refl, ap, ap₂, ◌∙◌, subst, Bool-cases, inl, inr, List, [], ◌∷◌,
  ◌++◌, length, length-append, length-take, length-drop, take, drop, take-append-drop, leb, lt→ltb,
  arith, ok,
}
use file_transfer_using_libp.Crypto.{Crypto}
use file_transfer_using_libp.Merkle.{root_of_tree, build_tree, levels}
use file_transfer_using_libp.Merkle.Shape.{root_single, root_next_level}
use file_transfer_using_libp.Merkle.Reference.{
  Full, leaf, both, Tree, tip, fork, lone, full_leaves, leaves, tree_hash, above, tree_hash-above,
  next_level-leaves, length-full_leaves,
}

-- A tree whose root has two subtrees, or is the one leaf.
abbrev pub IsTop : {n : ℕ} → Tree n → Type 0
IsTop (tip h) = Unit
IsTop (fork l r) = Unit
IsTop (lone l) = ⊥

-- The leaves of a tree of height `n + 1` with two subtrees are more than `2 ^ n`.
leaves_some : {n : ℕ} (t : Tree n) → 1 ≤ length (leaves t)
leaves_some (tip h) = omega arith
leaves_some (fork l r) = omega (arith, leaves_some r, length-append {0} (full_leaves l) (leaves r))
leaves_some (lone l) = leaves_some l

fork_many : {n : ℕ} (l : Full n) (r : Tree n) → 2 ^ n < length (full_leaves l ++ leaves r)
fork_many l r =
    omega (arith, length-full_leaves l, leaves_some r, length-append {0} (full_leaves l) (leaves r))

pow_pos : (n : ℕ) → 1 ≤ 2 ^ n
pow_pos zero = omega arith
pow_pos (suc n) = omega (arith, pow_pos n)

less_pow : (n : ℕ) → n ≤ 2 ^ n
less_pow zero = omega arith
less_pow (suc n) = omega (arith, less_pow n, pow_pos n)

-- A tree whose root is a leaf or has two subtrees is not higher than its leaves are many.
top_less : {n : ℕ} (t : Tree n) → IsTop t → n ≤ length (leaves t)
top_less (tip h) top = omega arith
top_less {n = suc n} (fork l r) top = omega (arith, fork_many l r, less_pow n)
top_less (lone l) top = absurd top

module _ (C : Crypto) where
  above-IsTop : {n : ℕ} (l : Full n) (r : Tree n) → IsTop (above C (fork l r))
  above-IsTop (leaf h) (tip k) = tt
  above-IsTop (both l r) t = tt

  -- The root over the leaves of a tree is its hash.
  pub root_tree :
      (n : ℕ) (t : Tree n) → IsTop t → root_of_tree (build_tree C (leaves t)) ≡ ok (tree_hash C t)
  root_tree zero (tip h) top = root_single C h
  root_tree (suc n) (fork l r) top =
      root_next_level C (leaves (fork l r)) (omega (arith, fork_many l r, pow_pos n))
      ∙ ap (λ xs. root_of_tree (build_tree C xs)) (next_level-leaves C (fork l r))
      ∙ root_tree n (above C (fork l r)) (above-IsTop l r)
      ∙ ap ok (tree_hash-above C (fork l r))
  root_tree (suc n) (lone l) top = absurd top

  -- The loop makes one level for the leaves and one for each step of the height.
  levels_count :
      (n fuel : ℕ) (t : Tree n) → IsTop t → n ≤ fuel → length (levels C fuel (leaves t)) ≡ suc n
  unfolding levels
  levels_count zero zero (tip h) top less = refl
  levels_count zero (suc fuel) (tip h) top less = refl
  levels_count (suc n) zero t top less = absurd (omega arith)
  levels_count (suc n) (suc fuel) (lone l) top less = absurd top
  levels_count (suc n) (suc fuel) (fork l r) top less =
      rw (lt→ltb 1 (length (full_leaves l ++ leaves r)) (omega (arith, fork_many l r, pow_pos n))) (
        ap (λ m. suc m)
          (ap (λ xs. length (levels C fuel xs)) (next_level-leaves C (fork l r))
            ∙ levels_count n fuel (above C (fork l r)) (above-IsTop l r) (omega arith)))

  build_tree-levels :
      (xs : List (List ℕ))
      → 1 ≤ length xs
      → length (build_tree C xs) ≡ length (levels C (length xs) xs)
  unfolding build_tree
  build_tree-levels [] some = absurd (omega arith)
  build_tree-levels (x ∷ xs) some = refl

  build_tree_count : (n : ℕ) (t : Tree n) → IsTop t → length (build_tree C (leaves t)) ≡ suc n
  build_tree_count n t top =
      build_tree-levels (leaves t) (leaves_some t)
      ∙ levels_count n (length (leaves t)) t top (top_less t top)

full_of : (n : ℕ) (xs : List (List ℕ)) → length xs ≡ 2 ^ n → (t : Full n) × (full_leaves t ≡ xs)
full_of zero [] h = absurd (omega arith)
full_of zero (x ∷ []) h = (leaf x, refl)
full_of zero (x ∷ y ∷ xs) h = absurd (omega arith)
full_of (suc n) xs h =
    let (l, e) = full_of n (take (2 ^ n) xs) (omega (arith, h, length-take (2 ^ n) xs)) in
    let (r, e') = full_of n (drop (2 ^ n) xs) (omega (arith, h, length-drop (2 ^ n) xs)) in
    (both l r, ap₂ (λ a b. a ++ b) e e' ∙ take-append-drop (2 ^ n) xs)

tree_of :
    (n : ℕ) (xs : List (List ℕ))
    → 1 ≤ length xs
    → length xs ≤ 2 ^ n
    → (t : Tree n) × (leaves t ≡ xs)
tree_of zero [] some h = absurd (omega arith)
tree_of zero (x ∷ []) some h = (tip x, refl)
tree_of zero (x ∷ y ∷ xs) some h = absurd (omega arith)
tree_of (suc n) xs some h = elim (Bool-cases (leb (length xs) (2 ^ n))) [
  | inl few ↦
      let (t, e) = tree_of n xs some (let p : length xs ≤ 2 ^ n = ground arith in p) in (lone t, e)
  | inr many ↦
      let more : 2 ^ n < length xs = ground arith in
      let (l, e) = full_of n (take (2 ^ n) xs) (omega (arith, more, length-take (2 ^ n) xs)) in
      let (r, e') =
        tree_of n (drop (2 ^ n) xs) (omega (arith, more, length-drop (2 ^ n) xs))
          (omega (arith, h, length-drop (2 ^ n) xs)) in
      (fork l r, ap₂ (λ a b. a ++ b) e e' ∙ take-append-drop (2 ^ n) xs)
]

-- Without the nodes above its root that have one subtree only.
topmost : {n : ℕ} (t : Tree n) → (m : ℕ) × (t' : Tree m) × IsTop t' × (leaves t' ≡ leaves t)
topmost {n} (tip h) = (0, tip h, tt, refl)
topmost {n} (fork l r) = (n, fork l r, tt, refl)
topmost {n} (lone l) = topmost l

-- Every list of leaves that is not empty is the leaves of a tree whose root is a leaf or has two
-- subtrees, at some height `n`, such that `BuildTree` on the list makes `n + 1` levels and
-- `Root_of_tree` of these is the hash of that tree: the hash of the hashes of the two subtrees, where a
-- missing right subtree counts as the left one.
pub root_reference :
    (C : Crypto) (xs : List (List ℕ))
    → 1 ≤ length xs
    → (n : ℕ) × (t : Tree n) × IsTop t
      × (leaves t ≡ xs)
      × (length (build_tree C xs) ≡ suc n)
      × (root_of_tree (build_tree C xs) ≡ ok (tree_hash C t))
root_reference C xs some =
    let (whole, e) = tree_of (length xs) xs some (less_pow (length xs)) in
    let (n, t, top, e') = topmost whole in
    let same : leaves t ≡ xs = e' ∙ e in
    (
      n,
      t,
      top,
      same,
      subst (λ ys. length (build_tree C ys) ≡ suc n) same (build_tree_count C n t top),
      subst (λ ys. root_of_tree (build_tree C ys) ≡ ok (tree_hash C t)) same (root_tree C n t top),
    )
