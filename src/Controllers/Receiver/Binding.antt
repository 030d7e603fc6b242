-- ===== src/Controllers/Receiver/Binding.antt =====
-- What the leaves of verified chunks bind: `GenerateLeaf` over chunks that a receiver has verified.
use file_transfer_using_libp.Base.{
  ℕ, zero, suc, concat, ◌+◌, ◌≤◌, ◌≡◌, refl, sym, ap, ap₂, ◌∙◌, subst, ◌⊎◌, inl, inr, List, [], ◌∷◌,
  ◌++◌, arith, append_split, append_split_last, append-nil, put_uint32, length-put_uint32, All,
  All-append,
}
use file_transfer_using_libp.Base
use file_transfer_using_libp.Protocol.Types.{Chunk}
use file_transfer_using_libp.Crypto.{Crypto, IsLawful, keccak}
use file_transfer_using_libp.Merkle.{generate_leaf, build_tree, root_of_tree}
use file_transfer_using_libp.Merkle.Binding.{
  Clash, Clash-map, TreeText, IsHash, keccak_clash, root_binding,
}
use file_transfer_using_libp.Controllers.Receiver.Verified.{IsGenuine}

-- The texts that are hashed for a chunk with a plaintext: that of its leaf and that of its commitment.
abbrev pub ChunkText : Chunk → List ℕ → List ℕ → Type 0
ChunkText c plaintext a =
    (a ≡ concat (c.file_id ∷ put_uint32 c.index ∷ c.nonce ∷ c.ciphertext ∷ c.h_resp ∷ []))
    ⊎ (a ≡ concat (c.key ∷ plaintext ∷ []))

-- The same for one of several chunks, each with its own plaintext.
abbrev pub AnyChunkText : List Chunk → List ℕ → Type 0
AnyChunkText [] a = ⊥
AnyChunkText (c ∷ cs) a = ChunkText c c.plaintext a ⊎ AnyChunkText cs a

-- The chunks from an index on are genuine, each with its own plaintext.
abbrev pub AllGenuine : Crypto → List ℕ → ℕ → List Chunk → Type 0
AllGenuine C file_id n [] = Unit
AllGenuine C file_id n (c ∷ cs) =
    IsGenuine C file_id n c c.plaintext × AllGenuine C file_id (suc n) cs

abbrev pub leaves_of : Crypto → List Chunk → List (List ℕ)
leaves_of C [] = []
leaves_of C (c ∷ cs) = generate_leaf C c ∷ leaves_of C cs

-- The texts that are hashed for a transfer of chunks: for each of them and for the tree over them.
abbrev pub TransferText : Crypto → List Chunk → List ℕ → Type 0
TransferText C cs a = AnyChunkText cs a ⊎ TreeText C (leaves_of C cs) a

-- The plaintexts of chunks, in order.
abbrev pub plaintexts : List Chunk → List ℕ
plaintexts [] = []
plaintexts (c ∷ cs) = c.plaintext ++ plaintexts cs

length-leaves_of : (C : Crypto) (cs : List Chunk) → Base.length (leaves_of C cs) ≡ Base.length cs
length-leaves_of C [] = refl
length-leaves_of C (c ∷ cs) = omega (arith, length-leaves_of C cs)

module _ (C : Crypto) (law : IsLawful C) where
  pub keccak-IsHash : (xs : List (List ℕ)) → IsHash (keccak C xs)
  unfolding keccak
  keccak-IsHash xs = law.length-keccak256 _

  leaf-IsHash : (c : Chunk) → IsHash (generate_leaf C c)
  unfolding generate_leaf
  leaf-IsHash c =
      keccak-IsHash (c.file_id ∷ put_uint32 c.index ∷ c.nonce ∷ c.ciphertext ∷ c.h_resp ∷ [])

  h_resp-IsHash :
      {file_id : List ℕ} {n : ℕ} {c : Chunk} {p : List ℕ}
      → IsGenuine C file_id n c p
      → IsHash c.h_resp
  h_resp-IsHash g = subst IsHash g.committed (keccak-IsHash _)

  -- One commitment is for one key and one plaintext.
  plaintext_binding :
      {file_id file_id' : List ℕ} {n m : ℕ} {c d : Chunk} {p q : List ℕ}
      → IsGenuine C file_id n c p
      → IsGenuine C file_id' m d q
      → c.h_resp ≡ d.h_resp
      → (p ≡ q) ⊎ Clash C (ChunkText c p) (ChunkText d q)
  plaintext_binding {c = c} {d = d} {p = p} {q = q} g h same =
      elim (keccak_clash C (c.key ∷ p ∷ []) (d.key ∷ q ∷ [])
        (g.committed ∙ same ∙ sym h.committed)) [
          | inl e ↦
              let (_, r) = append_split c.key d.key (g.key_length ∙ sym h.key_length) e in
              inl (sym (append-nil p) ∙ r ∙ append-nil q)
          | inr x ↦ inr (Clash-map C (λ a. inr) (λ b. inr) x)
        ]

  -- One leaf is for one file id and one plaintext.
  leaf_binding :
      {file_id file_id' : List ℕ} {n m : ℕ} {c d : Chunk} {p q : List ℕ}
      → IsGenuine C file_id n c p
      → IsGenuine C file_id' m d q
      → generate_leaf C c ≡ generate_leaf C d
      → ((file_id ≡ file_id') × (p ≡ q)) ⊎ Clash C (ChunkText c p) (ChunkText d q)
  unfolding generate_leaf
  leaf_binding {file_id} {file_id'} {c = c} {d = d} {p = p} {q = q} g h e =
      elim (keccak_clash C (c.file_id ∷ put_uint32 c.index ∷ c.nonce ∷ c.ciphertext ∷ c.h_resp ∷ [])
        (d.file_id ∷ put_uint32 d.index ∷ d.nonce ∷ d.ciphertext ∷ d.h_resp ∷ []) e) [
          | inl e ↦
              let (same_id, e1) =
                append_split c.file_id d.file_id
                  (ap Base.length g.of_file
                    ∙ g.file_id_length
                    ∙ sym (ap Base.length h.of_file ∙ h.file_id_length))
                  e in
              let (_, e2) =
                append_split (put_uint32 c.index) (put_uint32 d.index)
                  (length-put_uint32 c.index ∙ sym (length-put_uint32 d.index)) e1 in
              let (_, e3) = append_split c.nonce d.nonce (g.nonce_length ∙ sym h.nonce_length) e2 in
              let e4 =
                sym (ap (λ r. c.ciphertext ++ r) (append-nil c.h_resp))
                ∙ e3
                ∙ ap (λ r. d.ciphertext ++ r) (append-nil d.h_resp) in
              let (_, same) =
                append_split_last c.ciphertext d.ciphertext c.h_resp d.h_resp
                  (h_resp-IsHash g ∙ sym (h_resp-IsHash h)) e4 in
              elim (plaintext_binding g h same) [
                | inl r ↦ inl (sym g.of_file ∙ same_id ∙ h.of_file, r)
                | inr x ↦ inr x
              ]
          | inr x ↦ inr (Clash-map C (λ a. inl) (λ b. inl) x)
        ]

  leaves_of-IsHash : (cs : List Chunk) → All IsHash (leaves_of C cs)
  leaves_of-IsHash [] = tt
  leaves_of-IsHash (c ∷ cs) = (leaf-IsHash c, leaves_of-IsHash cs)

  -- One list of leaves is for one content.
  leaves_binding :
      (file_id file_id' : List ℕ) (n m : ℕ) (cs ds : List Chunk)
      → AllGenuine C file_id n cs
      → AllGenuine C file_id' m ds
      → leaves_of C cs ≡ leaves_of C ds
      → (plaintexts cs ≡ plaintexts ds) ⊎ Clash C (AnyChunkText cs) (AnyChunkText ds)
  leaves_binding i j n m [] [] g h e = inl refl
  leaves_binding i j n m [] (d ∷ ds) g h e = cc e
  leaves_binding i j n m (c ∷ cs) [] g h e = cc e
  leaves_binding i j n m (c ∷ cs) (d ∷ ds) (g, gs) (h, hs) e = elim (leaf_binding g h (cc e)) [
    | inl (_, same) ↦ elim (leaves_binding i j (suc n) (suc m) cs ds gs hs (cc e)) [
      | inl r ↦ inl (ap₂ (λ a b. a ++ b) same r)
      | inr x ↦ inr (Clash-map C (λ a. inr) (λ b. inr) x)
    ]
    | inr x ↦ inr (Clash-map C (λ a. inl) (λ b. inl) x)
  ]

  -- The root over the leaves of equally many genuine chunks, at least one, is for one content, or two
  -- of the texts that are hashed for the two transfers differ and have one hash.
  pub content_binding :
      (file_id file_id' : List ℕ) (cs ds : List Chunk)
      → AllGenuine C file_id 0 cs
      → AllGenuine C file_id' 0 ds
      → Base.length cs ≡ Base.length ds
      → 1 ≤ Base.length cs
      → root_of_tree (build_tree C (leaves_of C cs)) ≡ root_of_tree (build_tree C (leaves_of C ds))
      → (plaintexts cs ≡ plaintexts ds) ⊎ Clash C (TransferText C cs) (TransferText C ds)
  content_binding i j cs ds gs hs k some e =
      let l = length-leaves_of C cs in
      let l' = length-leaves_of C ds in
      elim (root_binding C law (leaves_of C cs) (leaves_of C ds) (omega (arith, l))
        (omega (arith, l, l')) (leaves_of-IsHash cs) (leaves_of-IsHash ds) e) [
          | inl same ↦ elim (leaves_binding i j 0 0 cs ds gs hs same) [
            | inl r ↦ inl r
            | inr x ↦ inr (Clash-map C (λ a. inl) (λ b. inl) x)
          ]
          | inr x ↦ inr (Clash-map C (λ a. inr) (λ b. inr) x)
        ]
