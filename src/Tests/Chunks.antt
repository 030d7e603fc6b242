-- ===== src/Tests/Chunks.antt =====
-- Chunks and Merkle trees under the small cryptography.
use file_transfer_using_libp.Base.{
  ℕ, suc, length, true, ◌↔◌, ◌≡◌, ◌⊎◌, refl, List, [], ◌∷◌, ◌++◌, replicate, ok, arith,
}
use file_transfer_using_libp.Protocol.Types.{Chunk, nonce_size}
use file_transfer_using_libp.Base
use file_transfer_using_libp.Crypto.{is_key_size, build_and_encrypt_chunk, decrypt_and_check}
use file_transfer_using_libp.Crypto.Chunks.{
  sealed_chunk, Accepted, Built, build_and_encrypt_chunk_exact, decrypt_and_check_exact,
  commitment_binding,
}
use file_transfer_using_libp.Merkle.{build_tree, root_of_tree}
use file_transfer_using_libp.Merkle.Reference.{leaf, both, Tree, tip, fork, lone, leaves, tree_hash}
use file_transfer_using_libp.Merkle.Heights.{IsTop, root_reference}
use file_transfer_using_libp.Merkle.Filled.{filled, NodeText, root_filled}
use file_transfer_using_libp.Merkle.Binding.{Collision, Clash, TreeText, root_binding, root_repeat}
use file_transfer_using_libp.Tests.{toy, toy-IsLawful, key_sevens, nonce_nines}

build_and_encrypt_chunk_exact_example :
    (build_and_encrypt_chunk toy (5 ∷ []) 2 (1 ∷ 2 ∷ []) (key_sevens ++ (nonce_nines ++ (77 ∷ [])))
      ≡ (ok (sealed_chunk toy key_sevens nonce_nines (5 ∷ []) 2 (1 ∷ 2 ∷ [])), 77 ∷ []))
    ↔ Built toy
        (5 ∷ [])
        2
        (1 ∷ 2 ∷ [])
        (key_sevens ++ (nonce_nines ++ (77 ∷ [])))
        (sealed_chunk toy key_sevens nonce_nines (5 ∷ []) 2 (1 ∷ 2 ∷ []))
        (77 ∷ [])
build_and_encrypt_chunk_exact_example =
    build_and_encrypt_chunk_exact toy (5 ∷ []) 2 (1 ∷ 2 ∷ [])
      (key_sevens ++ (nonce_nines ++ (77 ∷ []))) (77 ∷ [])
      (sealed_chunk toy key_sevens nonce_nines (5 ∷ []) 2 (1 ∷ 2 ∷ []))

abbrev plain : List ℕ
plain = 1 ∷ 2 ∷ []

-- A sealed chunk, as it is opened again.
abbrev chunk : Chunk
chunk = record {
  file_id = 5 ∷ [];
  index = 2;
  length = 2;
  plaintext = [];
  ciphertext = 1 ∷ 2 ∷ replicate 16 0;
  key = key_sevens;
  nonce = nonce_nines;
  h_resp = replicate 32 227;
  leaf = [];
}

chunk_opens :
    decrypt_and_check toy chunk ≡ (ok (1 ∷ 2 ∷ []), record chunk { plaintext = 1 ∷ 2 ∷ [] })
unfolding decrypt_and_check
chunk_opens = refl

decrypt_and_check_exact_example :
    (decrypt_and_check toy chunk ≡ (ok plain, record chunk { plaintext = plain })) ↔ (
      (is_key_size (Base.length chunk.key) ≡ true)
      × (Base.length chunk.nonce ≡ nonce_size)
      × Accepted toy chunk plain (record chunk { plaintext = plain }))
decrypt_and_check_exact_example =
    decrypt_and_check_exact toy chunk (record chunk { plaintext = plain }) plain

commitment_binding_example : ((chunk.key ≡ chunk.key) × (plain ≡ plain)) ⊎ Collision toy
commitment_binding_example =
    commitment_binding toy chunk (record chunk { plaintext = 1 ∷ 2 ∷ [] }) chunk
      (record chunk { plaintext = 1 ∷ 2 ∷ [] }) (1 ∷ 2 ∷ []) (1 ∷ 2 ∷ []) refl refl refl chunk_opens
      chunk_opens

abbrev three_leaves : List (List ℕ)
three_leaves = replicate 32 1 ∷ replicate 32 2 ∷ replicate 32 3 ∷ []

root_binding_example :
    (three_leaves ≡ three_leaves)
    ⊎ Clash toy (TreeText toy three_leaves) (TreeText toy three_leaves)
root_binding_example =
    root_binding toy toy-IsLawful three_leaves three_leaves (omega arith) refl
      (refl, (refl, (refl, tt))) (refl, (refl, (refl, tt))) refl

root_repeat_example :
    root_of_tree (build_tree toy ((1 ∷ []) ∷ (2 ∷ []) ∷ (3 ∷ []) ∷ []))
    ≡ root_of_tree (build_tree toy ((1 ∷ []) ∷ (2 ∷ []) ∷ (3 ∷ []) ∷ (3 ∷ []) ∷ []))
root_repeat_example = root_repeat toy (3 ∷ []) ((1 ∷ []) ∷ (2 ∷ []) ∷ []) refl (omega arith)

root_reference_example :
    (n : ℕ) × (t : Tree n) × IsTop t
    × (leaves t ≡ three_leaves)
    × (length (build_tree toy three_leaves) ≡ suc n)
    × (root_of_tree (build_tree toy three_leaves) ≡ ok (tree_hash toy t))
root_reference_example = root_reference toy three_leaves (omega arith)

-- Three leaves, the last one without a right neighbour, and four leaves with the last one twice.
abbrev tree_of_three : Tree 2
tree_of_three =
    fork (both (leaf (replicate 32 1)) (leaf (replicate 32 2))) (lone (tip (replicate 32 3)))

abbrev tree_of_four : Tree 2
tree_of_four =
    fork (both (leaf (replicate 32 1)) (leaf (replicate 32 2)))
      (fork (leaf (replicate 32 3)) (tip (replicate 32 3)))

root_filled_example :
    ((root_of_tree (build_tree toy (leaves tree_of_three))
        ≡ root_of_tree (build_tree toy (leaves tree_of_four)))
      ↔ (filled tree_of_three ≡ filled tree_of_four))
    ⊎ Clash toy (NodeText toy (filled tree_of_three)) (NodeText toy (filled tree_of_four))
root_filled_example =
    root_filled toy toy-IsLawful tree_of_three tree_of_four tt tt (refl, (refl, (refl, tt)))
      (refl, (refl, (refl, (refl, tt))))
