-- ===== src/Merkle/Binding.antt =====
-- What a Merkle root binds. No hash is free of collisions, so the statements say: two lists are
-- equal, or here are two texts with one hash. A hash of 32 bytes has collisions somewhere, so what the
-- trees bind is stated with the texts among those that were hashed for them.
use file_transfer_using_libp.Base.{
  ℕ, zero, suc, ◌%◌, ◌≤◌, ◌<◌, ◌≡◌, ◌≢◌, refl, sym, ap, ◌∙◌, ◌⊎◌, inl, inr, false, List, [], ◌∷◌,
  ◌++◌, length, concat, arith, list_eq, list_eq_sound, list_eq_iff, Bool-cases, All, append_split,
  append-nil, length-append,
}
use file_transfer_using_libp.Protocol.Types.{hash_size}
use file_transfer_using_libp.Crypto.{Crypto, IsLawful, keccak}
use file_transfer_using_libp.Merkle.{root_of_tree, next_level, build_tree}
use file_transfer_using_libp.Merkle.Shape.{length-next_level, root_single, root_next_level}

-- Two different texts with one hash.
abbrev pub Collision : Crypto → Type 0
Collision C = (a : List ℕ) × (b : List ℕ) × (a ≢ b) × (C.keccak256 a ≡ C.keccak256 b)

-- Two different texts with one hash, one of each sort.
abbrev pub Clash : Crypto → (List ℕ → Type 0) → (List ℕ → Type 0) → Type 0
Clash C P Q = (a : List ℕ) × (b : List ℕ) × P a × Q b × (a ≢ b) × (C.keccak256 a ≡ C.keccak256 b)

pub Clash-map :
    (C : Crypto) {P P' Q Q' : List ℕ → Type 0}
    → ((a : List ℕ) → P a → P' a)
    → ((b : List ℕ) → Q b → Q' b)
    → Clash C P Q
    → Clash C P' Q'
Clash-map C f g (a, b, p, q, differ, e) = (a, b, f a p, g b q, differ, e)

abbrev pub IsHash : List ℕ → Type 0
IsHash h = length h ≡ hash_size

pub differing : (a b : List ℕ) → list_eq a b ≡ false → a ≡ b → ⊥
differing a b d p = cc (d, (list_eq_iff a b).1 p)

module _ (C : Crypto) where
  -- Slices with one hash are the same bytes, or these bytes have one hash and differ.
  pub keccak_clash :
      (xs ys : List (List ℕ))
      → keccak C xs ≡ keccak C ys
      → (concat xs ≡ concat ys) ⊎ Clash C (λ a. a ≡ concat xs) (λ b. b ≡ concat ys)
  unfolding keccak
  keccak_clash xs ys e = elim (Bool-cases (list_eq (concat xs) (concat ys))) [
    | inl same ↦ inl (list_eq_sound (concat xs) (concat ys) same)
    | inr differ ↦
        inr (concat xs, concat ys, refl, refl, λ p. differing (concat xs) (concat ys) differ p, e)
  ]

  pub keccak_binding :
      (xs ys : List (List ℕ)) → keccak C xs ≡ keccak C ys → (concat xs ≡ concat ys) ⊎ Collision C
  keccak_binding xs ys e = elim (keccak_clash xs ys e) [
    | inl same ↦ inl same
    | inr (a, b, _, _, differ, one) ↦ inr (a, b, differ, one)
  ]

  -- The texts that are hashed for the level above a level: two neighbours, or a last one twice.
  abbrev pub LevelText : List (List ℕ) → List ℕ → Type 0
  LevelText [] a = ⊥
  LevelText (x ∷ []) a = a ≡ concat (x ∷ x ∷ [])
  LevelText (x ∷ y ∷ xs) a = (a ≡ concat (x ∷ y ∷ [])) ⊎ LevelText xs a

  -- The texts that are hashed for the tree over some leaves: those of each level of more than one hash.
  pub data TreeText : List (List ℕ) → List ℕ → Type 0 where
    of_level : {xs : List (List ℕ)} {a : List ℕ} → 1 < length xs → LevelText xs a → TreeText xs a
    of_higher :
        {xs : List (List ℕ)} {a : List ℕ}
        → 1 < length xs
        → TreeText (next_level C xs) a
        → TreeText xs a

  pub pair_binding :
      (x y u v : List ℕ)
      → IsHash x
      → IsHash u
      → keccak C (x ∷ y ∷ []) ≡ keccak C (u ∷ v ∷ [])
      → ((x ≡ u) × (y ≡ v)) ⊎ Clash C (λ a. a ≡ concat (x ∷ y ∷ [])) (λ b. b ≡ concat (u ∷ v ∷ []))
  pair_binding x y u v hx hu e = elim (keccak_clash (x ∷ y ∷ []) (u ∷ v ∷ []) e) [
    | inl p ↦
        let (q, r) = append_split x u (omega arith) p in
        inl (q, sym (append-nil y) ∙ r ∙ append-nil v)
    | inr c ↦ inr c
  ]

  level_binding :
      (xs ys : List (List ℕ))
      → length xs ≡ length ys
      → All IsHash xs
      → All IsHash ys
      → next_level C xs ≡ next_level C ys
      → (xs ≡ ys) ⊎ Clash C (LevelText xs) (LevelText ys)
  unfolding next_level
  level_binding [] [] l hx hy e = inl refl
  level_binding [] (y ∷ ys) l hx hy e = absurd (omega arith)
  level_binding (x ∷ xs) [] l hx hy e = absurd (omega arith)
  level_binding (x ∷ []) (y ∷ []) l hx hy e = elim (pair_binding x x y y hx.0 hy.0 (cc e)) [
    | inl p ↦ inl (cc p.0)
    | inr c ↦ inr c
  ]
  level_binding (x ∷ []) (y ∷ v ∷ ys) l hx hy e = absurd (omega arith)
  level_binding (x ∷ u ∷ xs) (y ∷ []) l hx hy e = absurd (omega arith)
  level_binding (x ∷ u ∷ xs) (y ∷ v ∷ ys) l (hx, (hu, hs)) (hy, (hv, ks)) e =
      both (pair_binding x u y v hx hy (cc e)) (level_binding xs ys (omega arith) hs ks (cc e))
    where
      both :
          ((x ≡ y) × (u ≡ v))
            ⊎ Clash C (λ a. a ≡ concat (x ∷ u ∷ [])) (λ b. b ≡ concat (y ∷ v ∷ []))
          → (xs ≡ ys) ⊎ Clash C (LevelText xs) (LevelText ys)
          → (x ∷ u ∷ xs ≡ y ∷ v ∷ ys) ⊎ Clash C (LevelText (x ∷ u ∷ xs)) (LevelText (y ∷ v ∷ ys))
      both (inl p) (inl q) = inl (cc (p.0, p.1, q))
      both (inl p) (inr c) = inr (Clash-map C (λ a. inr) (λ b. inr) c)
      both (inr c) q = inr (Clash-map C (λ a. inl) (λ b. inl) c)

  module _ (law : IsLawful C) where
    pub next_level-IsHash : (xs : List (List ℕ)) → All IsHash (next_level C xs)
    unfolding next_level keccak
    next_level-IsHash [] = tt
    next_level-IsHash (x ∷ []) = (law.length-keccak256 _, tt)
    next_level-IsHash (x ∷ y ∷ xs) = (law.length-keccak256 _, next_level-IsHash xs)

    binding :
        (n : ℕ) (xs ys : List (List ℕ))
        → length xs ≤ n
        → 1 ≤ length xs
        → length xs ≡ length ys
        → All IsHash xs
        → All IsHash ys
        → root_of_tree (build_tree C xs) ≡ root_of_tree (build_tree C ys)
        → (xs ≡ ys) ⊎ Clash C (TreeText xs) (TreeText ys)
    binding n [] ys b s l hx hy e = absurd (omega arith)
    binding n (x ∷ xs) [] b s l hx hy e = absurd (omega arith)
    binding n (x ∷ []) (y ∷ []) b s l hx hy e =
        inl (cc (sym (root_single C x) ∙ e ∙ root_single C y))
    binding n (x ∷ []) (y ∷ v ∷ ys) b s l hx hy e = absurd (omega arith)
    binding n (x ∷ u ∷ xs) (y ∷ []) b s l hx hy e = absurd (omega arith)
    binding zero (x ∷ u ∷ xs) (y ∷ v ∷ ys) b s l hx hy e = absurd (omega arith)
    binding (suc n) (x ∷ u ∷ xs) (y ∷ v ∷ ys) b s l hx hy e =
        let k = length-next_level C (x ∷ u ∷ xs) in
        let m = length-next_level C (y ∷ v ∷ ys) in
        let above =
          binding n (next_level C (x ∷ u ∷ xs)) (next_level C (y ∷ v ∷ ys)) (omega (arith, k))
            (omega (arith, k)) (omega (arith, k, m)) (next_level-IsHash (x ∷ u ∷ xs))
            (next_level-IsHash (y ∷ v ∷ ys))
            (sym (root_next_level C (x ∷ u ∷ xs) (omega arith))
              ∙ e
              ∙ root_next_level C (y ∷ v ∷ ys) (omega arith)) in
        elim above [
          | inl same ↦ elim (level_binding (x ∷ u ∷ xs) (y ∷ v ∷ ys) l hx hy same) [
            | inl e ↦ inl e
            | inr c ↦
                inr (Clash-map C (λ a. of_level (omega arith)) (λ b. of_level (omega arith)) c)
          ]
          | inr c ↦
              inr (Clash-map C (λ a. of_higher (omega arith)) (λ b. of_higher (omega arith)) c)
        ]

    -- Two lists of equally many leaves of 32 bytes, at least one, with the same root are equal, or two
    -- different texts with one hash are given, of which one was hashed for the tree over the first list
    -- and the other for the tree over the second, under cryptography that keeps its documented laws.
    pub root_binding :
        (xs ys : List (List ℕ))
        → 1 ≤ length xs
        → length xs ≡ length ys
        → All IsHash xs
        → All IsHash ys
        → root_of_tree (build_tree C xs) ≡ root_of_tree (build_tree C ys)
        → (xs ≡ ys) ⊎ Clash C (TreeText xs) (TreeText ys)
    root_binding xs ys = binding (length xs) xs ys (omega arith)

  next_level_repeat :
      (x : List ℕ) (xs : List (List ℕ))
      → length xs % 2 ≡ 0
      → next_level C (xs ++ (x ∷ [])) ≡ next_level C (xs ++ (x ∷ x ∷ []))
  unfolding next_level
  next_level_repeat x [] h = refl
  next_level_repeat x (u ∷ []) h = absurd (omega arith)
  next_level_repeat x (u ∷ v ∷ xs) h =
      ap (λ up. keccak C (u ∷ v ∷ []) ∷ up) (next_level_repeat x xs (omega arith))

  -- The root does not bind the number of leaves: after a positive even number of leaves, a last leaf
  -- once or twice gives the same root.
  pub root_repeat :
      (x : List ℕ) (xs : List (List ℕ))
      → length xs % 2 ≡ 0
      → 1 ≤ length xs
      → root_of_tree (build_tree C (xs ++ (x ∷ [])))
        ≡ root_of_tree (build_tree C (xs ++ (x ∷ x ∷ [])))
  root_repeat x xs h k =
      let one = length-append {0} xs (x ∷ []) in
      let two = length-append {0} xs (x ∷ x ∷ []) in
      root_next_level C (xs ++ (x ∷ [])) (omega (arith, one))
      ∙ ap (λ up. root_of_tree (build_tree C up)) (next_level_repeat x xs h)
      ∙ sym (root_next_level C (xs ++ (x ∷ x ∷ [])) (omega (arith, two)))
