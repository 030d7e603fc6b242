-- ===== src/Controllers/Receiver/Verified.antt =====
-- What a receiver has verified: the chunks whose plaintexts are in its file and whose leaves it has.
use file_transfer_using_libp.Base.{
  ℕ, suc, ◌≡◌, refl, some, List, [], ◌∷◌, ◌++◌, length, length-append, arith,
}
use file_transfer_using_libp.Protocol.Types.{Chunk, key_size, nonce_size, hash_size}
use file_transfer_using_libp.Crypto.{Crypto, keccak}
use file_transfer_using_libp.Merkle.{generate_leaf}

module _ (C : Crypto) (file_id : List ℕ) where
  -- A chunk of the transfer whose fields have their sizes, with a plaintext that its ciphertext opens
  -- to and that, with the key, has the hash of its commitment.
  pub record IsGenuine (index : ℕ) (c : Chunk) (plaintext : List ℕ) : Type 0 where
    pub of_file : c.file_id ≡ file_id
    pub file_id_length : length file_id ≡ hash_size
    pub key_length : length c.key ≡ key_size
    pub nonce_length : length c.nonce ≡ nonce_size
    pub in_order : c.index ≡ index
    pub authentic : C.gcm_open c.key c.nonce c.ciphertext ≡ some plaintext
    pub committed : keccak C (c.key ∷ plaintext ∷ []) ≡ c.h_resp

  -- The leaves and the content that `n` genuine chunks make, in the order of their indices.
  pub data Verified : ℕ → List (List ℕ) → List ℕ → Type 0 where
    nothing_yet : Verified 0 [] []
    one_more :
        {n : ℕ} {leaves : List (List ℕ)} {content : List ℕ} (c : Chunk) (plaintext : List ℕ)
        → Verified n leaves content
        → IsGenuine n c plaintext
        → Verified (suc n) (leaves ++ (generate_leaf C c ∷ [])) (content ++ plaintext)

  -- There is a leaf for each chunk.
  pub length-Verified :
      {n : ℕ} {leaves : List (List ℕ)} {content : List ℕ}
      → Verified n leaves content
      → length leaves ≡ n
  length-Verified nothing_yet = refl
  length-Verified (one_more {leaves = ls} c plaintext v g) =
      omega (arith, length-Verified v, length-append {0} ls (generate_leaf C c ∷ []))
