-- ===== src/Crypto.antt =====
-- Utils/utils.go and `BuildAndEncryptChunk` of Chunk/chunk.go. Keccak-256 and AES-GCM are code
-- outside the repository: the model takes them as a parameter. `rand.Reader` is the list of bytes
-- that it will deliver.
pub mod Chunks
use file_transfer_using_libp.Base.{
  ℕ, ◌+◌, ◌≡◌, Bool, true, false, Option, none, some, List, [], ◌∷◌, ◌||◌, length, take, drop,
  concat, leb, ◌==◌, if◌then◌else◌, list_eq, All, IsByte, failed, hash_mismatch, wrap_at, Result,
  ok, err, panic, Act, pure, throw, ◌>>=◌, ◌>>◌, wrapping,
}
use file_transfer_using_libp.Protocol.Types.{Chunk, new_chunk, key_size, nonce_size, hash_size}

-- `sha3.NewLegacyKeccak256` over all that was written, `cipher.AEAD.Seal` and `Open` with no
-- additional data; `none` is the error of `Open`.
pub record Crypto : Type 0 where
  pub keccak256 : List ℕ → List ℕ
  pub gcm_seal : List ℕ → List ℕ → List ℕ → List ℕ
  pub gcm_open : List ℕ → List ℕ → List ℕ → Option (List ℕ)

-- What those packages document: the sizes of a hash and of a sealed text, and that `Open` undoes
-- `Seal`.
pub record IsLawful (C : Crypto) : Type 0 where
  pub length-keccak256 : (xs : List ℕ) → length (C.keccak256 xs) ≡ hash_size
  pub keccak256-IsByte : (xs : List ℕ) → All IsByte (C.keccak256 xs)
  pub length-gcm_seal :
      (key nonce plaintext : List ℕ)
      → length key ≡ key_size
      → length nonce ≡ nonce_size
      → length (C.gcm_seal key nonce plaintext) ≡ length plaintext + 16
  pub gcm_open-gcm_seal :
      (key nonce plaintext : List ℕ)
      → length key ≡ key_size
      → length nonce ≡ nonce_size
      → C.gcm_open key nonce (C.gcm_seal key nonce plaintext) ≡ some plaintext

-- `rand.Read(buf)` and `io.ReadFull(rand.Reader, buf)` for a buffer of `n` bytes.
unfoldable pub rand_read : ℕ → Act (List ℕ) (List ℕ)
rand_read n entropy =
    if leb n (length entropy)
    then (ok (take n entropy), drop n entropy)
    else (err (failed "crypto/rand"), [])

-- `GenerateRandomKey`.
abbrev pub generate_random_key : Act (List ℕ) (List ℕ)
generate_random_key = rand_read key_size

-- The sizes of a key that `aes.NewCipher` accepts. `cipher.NewGCM` accepts every AES cipher.
abbrev pub is_key_size : ℕ → Bool
is_key_size n = n == 16 || n == 24 || n == 32

module _ (C : Crypto) where
  -- `Keccak`: the slices are written to the hasher one after the other.
  unfoldable pub keccak : List (List ℕ) → List ℕ
  keccak data' = C.keccak256 (concat data')

  -- `ComputeResponseCommitment`.
  unfoldable pub compute_response_commitment : Chunk → List ℕ
  unfolding keccak
  compute_response_commitment c = keccak (c.key ∷ c.plaintext ∷ [])

  -- `EncryptChunk`: the chunk with nonce and ciphertext filled in.
  unfoldable pub encrypt_chunk : Chunk → Act (List ℕ) Chunk
  encrypt_chunk c entropy =
      if is_key_size (length c.key)
      then (do
        nonce ← rand_read nonce_size
        pure (record c { nonce = nonce; ciphertext = C.gcm_seal c.key nonce c.plaintext }))
          entropy
      else (err (failed "crypto/aes: invalid key size"), entropy)

  -- The end of `DecryptAndCheck`: the plaintext is in the chunk when the commitment is compared.
  abbrev pub check_commitment : List ℕ → Act Chunk (List ℕ)
  check_commitment plaintext c =
      if list_eq (compute_response_commitment c) c.h_resp
      then (ok plaintext, c)
      else (err (hash_mismatch "H_resp mismatch" (compute_response_commitment c) c.h_resp), c)

  abbrev pub opened : Option (List ℕ) → Act Chunk (List ℕ)
  opened none c = (err (failed "cipher: message authentication failed"), c)
  opened (some plaintext) c = check_commitment plaintext (record c { plaintext = plaintext })

  -- `DecryptAndCheck`, on the chunk that the pointer leads to. `Open` panics on a nonce of another
  -- size than 12.
  unfoldable pub decrypt_and_check : Act Chunk (List ℕ)
  unfolding compute_response_commitment
  decrypt_and_check c =
      if is_key_size (length c.key)
      then (if length c.nonce == nonce_size
          then opened (C.gcm_open c.key c.nonce c.ciphertext) c
          else (panic, c))
      else (err (failed "crypto/aes: invalid key size"), c)

  -- `BuildAndEncryptChunk`.
  unfoldable pub build_and_encrypt_chunk : List ℕ → ℕ → List ℕ → Act (List ℕ) Chunk
  unfolding encrypt_chunk compute_response_commitment new_chunk
  build_and_encrypt_chunk file_id index plaintext = do
    key ← wrapping (wrap_at "generating key for chunk" index) generate_random_key
    c ←
        wrapping (wrap_at "encrypting chunk" index)
          (encrypt_chunk (record (new_chunk file_id index plaintext) { key = key }))
    pure (record c { h_resp = compute_response_commitment c })
