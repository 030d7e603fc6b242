-- ===== src/Merkle/Filled.antt =====
-- What the root of Merkle/merkle.go binds and what it does not, for lists of leaves whose trees are
-- equally high: a last odd hash is paired with itself, so a tree has the root of the full tree in which
-- each missing right subtree is a copy of the left one.
use file_transfer_using_libp.Base.{
  ℕ, suc, ◌≡◌, refl, sym, ap, ap₂, ◌∙◌, ◌⊎◌, inl, inr, List, concat, list_eq, list_eq_sound,
  Bool-cases, ◌↔◌, [], ◌∷◌, All, All-append_split, ok,
}
use file_transfer_using_libp.Crypto.{Crypto, IsLawful, keccak}
use file_transfer_using_libp.Merkle.{root_of_tree, build_tree}
use file_transfer_using_libp.Merkle.Binding.{Clash, Clash-map, IsHash, pair_binding, differing}
use file_transfer_using_libp.Merkle.Reference.{
  Full, leaf, both, Tree, tip, fork, lone, full_leaves, leaves, full_hash, tree_hash,
}
use file_transfer_using_libp.Merkle.Heights.{IsTop, root_tree}

-- The tree with its missing right subtrees filled by copies of the left ones.
abbrev pub filled : {n : ℕ} → Tree n → Full n
filled (tip h) = leaf h
filled (fork l r) = both l (filled r)
filled (lone l) = both (filled l) (filled l)

-- Every leaf has 32 bytes.
abbrev IsSized : {n : ℕ} → Full n → Type 0
IsSized (leaf h) = IsHash h
IsSized (both l r) = IsSized l × IsSized r

full_leaves-IsSized : {n : ℕ} (t : Full n) → All IsHash (full_leaves t) → IsSized t
full_leaves-IsSized (leaf h) sizes = sizes.0
full_leaves-IsSized (both l r) sizes =
    let (p, q) = All-append_split IsHash (full_leaves l) (full_leaves r) sizes in
    (full_leaves-IsSized l p, full_leaves-IsSized r q)

filled-IsSized : {n : ℕ} (t : Tree n) → All IsHash (leaves t) → IsSized (filled t)
filled-IsSized (tip h) sizes = sizes.0
filled-IsSized (fork l r) sizes =
    let (p, q) = All-append_split IsHash (full_leaves l) (leaves r) sizes in
    (full_leaves-IsSized l p, filled-IsSized r q)
filled-IsSized (lone l) sizes = (filled-IsSized l sizes, filled-IsSized l sizes)

module _ (C : Crypto) where
  -- The texts that are hashed for the nodes of a full tree.
  abbrev pub NodeText : {n : ℕ} → Full n → List ℕ → Type 0
  NodeText (leaf h) a = ⊥
  NodeText (both l r) a =
      (a ≡ concat (full_hash C l ∷ full_hash C r ∷ [])) ⊎ (NodeText l a ⊎ NodeText r a)

  full_hash-filled : {n : ℕ} (t : Tree n) → full_hash C (filled t) ≡ tree_hash C t
  full_hash-filled (tip h) = refl
  full_hash-filled (fork l r) = ap (λ x. keccak C (full_hash C l ∷ x ∷ [])) (full_hash-filled r)
  full_hash-filled (lone l) = ap (λ x. keccak C (x ∷ x ∷ [])) (full_hash-filled l)

  module _ (law : IsLawful C) where
    full_hash-IsHash : {n : ℕ} (t : Full n) → IsSized t → IsHash (full_hash C t)
    unfolding keccak
    full_hash-IsHash (leaf h) sized = sized
    full_hash-IsHash (both l r) sized = law.length-keccak256 _

    full_binding :
        {n : ℕ} (s t : Full n)
        → IsSized s
        → IsSized t
        → full_hash C s ≡ full_hash C t
        → (s ≡ t) ⊎ Clash C (NodeText s) (NodeText t)
    full_binding (leaf h) (leaf k) hs ht e = inl (ap leaf e)
    full_binding {n = suc n} (both l r) (both l' r') hs ht e =
        elim (pair_binding C (full_hash C l) (full_hash C r) (full_hash C l') (full_hash C r')
          (full_hash-IsHash l hs.0) (full_hash-IsHash l' ht.0) e) [
            | inr c ↦ inr (Clash-map C (λ a. inl) (λ b. inl) c)
            | inl p ↦ join (full_binding l l' hs.0 ht.0 p.0) (full_binding r r' hs.1 ht.1 p.1)
          ]
      where
        join :
            (l ≡ l') ⊎ Clash C (NodeText l) (NodeText l')
            → (r ≡ r') ⊎ Clash C (NodeText r) (NodeText r')
            → (both l r ≡ both l' r') ⊎ Clash C (NodeText (both l r)) (NodeText (both l' r'))
        join (inl p) (inl q) = inl (ap₂ (λ a b. both a b) p q)
        join (inl p) (inr c) = inr (Clash-map C (λ a p. inr (inr p)) (λ b p. inr (inr p)) c)
        join (inr c) q = inr (Clash-map C (λ a p. inr (inl p)) (λ b p. inr (inl p)) c)

    -- Under cryptography that keeps its documented laws, for two trees of one height with leaves of 32
    -- bytes, each a leaf or with two subtrees at its root: `Root_of_tree` of `BuildTree` on their leaves
    -- is the same exactly when the trees are equal once their missing right subtrees are filled by
    -- copies of the left ones, or two different texts with one hash are given, of which one is hashed
    -- for a node of the first tree so filled and the other for a node of the second.
    pub root_filled :
        {n : ℕ} (s t : Tree n)
        → IsTop s
        → IsTop t
        → All IsHash (leaves s)
        → All IsHash (leaves t)
        → ((root_of_tree (build_tree C (leaves s)) ≡ root_of_tree (build_tree C (leaves t)))
            ↔ (filled s ≡ filled t))
          ⊎ Clash C (NodeText (filled s)) (NodeText (filled t))
    root_filled {n} s t top_s top_t sizes_s sizes_t =
        elim (Bool-cases (list_eq (full_hash C (filled s)) (full_hash C (filled t)))) [
          | inl same ↦
              elim (full_binding (filled s) (filled t) (filled-IsSized s sizes_s)
                (filled-IsSized t sizes_t) (list_eq_sound _ _ same)) [
                  | inl e ↦ inl (λ _. e, one_root)
                  | inr c ↦ inr c
                ]
          | inr differ ↦
              let apart : full_hash C (filled s) ≡ full_hash C (filled t) → ⊥ =
                λ p. differing _ _ differ p in
              inl (λ e. absurd (apart (cc (sym root_s ∙ e ∙ root_t))), one_root)
        ]
      where
        root_s : root_of_tree (build_tree C (leaves s)) ≡ ok (full_hash C (filled s))
        root_s = root_tree C n s top_s ∙ ap ok (sym (full_hash-filled s))

        root_t : root_of_tree (build_tree C (leaves t)) ≡ ok (full_hash C (filled t))
        root_t = root_tree C n t top_t ∙ ap ok (sym (full_hash-filled t))

        one_root :
            filled s ≡ filled t
            → root_of_tree (build_tree C (leaves s)) ≡ root_of_tree (build_tree C (leaves t))
        one_root same = root_s ∙ ap (λ u. ok (full_hash C u)) same ∙ sym root_t
