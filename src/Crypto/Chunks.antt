-- ===== src/Crypto/Chunks.antt =====
-- The commit and reveal of one chunk: `BuildAndEncryptChunk` against `DecryptAndCheck`.
use file_transfer_using_libp.Base.{
  ℕ, ◌+◌, ◌≤◌, ◌<◌, ◌≡◌, ◌↔◌, refl, sym, ap, subst, ◌∙◌, ◌⊎◌, inl, inr, true, false, Option, none,
  some, List, [], ◌∷◌, ◌++◌, append_assoc, append-nil, take, drop, leb, le→leb, ◌==◌, ==_iff,
  if◌then◌else◌, arith, list_eq, list_eq_refl, list_eq_sound, u32, length-append, Bool-cases,
  take-append_exact, drop-append_exact, append_split, Result, Error, ok, err, wrap_at,
}
use file_transfer_using_libp.Base
use file_transfer_using_libp.Protocol.Types.{Chunk, key_size, nonce_size}
use file_transfer_using_libp.Crypto.{
  Crypto, rand_read, keccak, compute_response_commitment, decrypt_and_check,
  build_and_encrypt_chunk, is_key_size,
}
use file_transfer_using_libp.Merkle.Binding.{Collision, keccak_binding}

-- `rand_read` takes exactly the bytes that it is asked for.
rand_read-append :
    (n : ℕ) (xs rest : List ℕ) → Base.length xs ≡ n → rand_read n (xs ++ rest) ≡ (ok xs, rest)
unfolding rand_read
rand_read-append n xs rest h =
    rw (le→leb n (Base.length (xs ++ rest)) (omega (arith, length-append {0} xs rest)))
      (rw (take-append_exact n xs rest h, drop-append_exact n xs rest h))

leb-true : (m n : ℕ) → leb m n ≡ true → m ≤ n
leb-true m n h = ground arith

leb-false : (m n : ℕ) → n < m → leb m n ≡ false
leb-false m n h = ground arith

key_size_lem : (n : ℕ) → n ≡ 32 → is_key_size n ≡ true
key_size_lem n h = ground arith

module _ (C : Crypto) where
  -- The chunk that the sender builds from a key and a nonce.
  unfoldable pub sealed_chunk : List ℕ → List ℕ → List ℕ → ℕ → List ℕ → Chunk
  unfolding keccak
  sealed_chunk key nonce file_id index plaintext = record {
    file_id = file_id;
    index = index;
    length = u32 (Base.length plaintext);
    plaintext = plaintext;
    ciphertext = C.gcm_seal key nonce plaintext;
    key = key;
    nonce = nonce;
    h_resp = keccak C (key ∷ plaintext ∷ []);
    leaf = [];
  }

  -- `BuildAndEncryptChunk` takes a key of 32 bytes and a nonce of 12 from the source of randomness,
  -- and fills in everything but the leaf.
  pub build_and_encrypt_chunk_lem :
      (file_id : List ℕ) (index : ℕ) (plaintext key nonce rest : List ℕ)
      → Base.length key ≡ key_size
      → Base.length nonce ≡ nonce_size
      → build_and_encrypt_chunk C file_id index plaintext (key ++ (nonce ++ rest))
        ≡ (ok (sealed_chunk key nonce file_id index plaintext), rest)
  unfolding build_and_encrypt_chunk sealed_chunk
  build_and_encrypt_chunk_lem file_id index plaintext key nonce rest hk hn = rw (
    rand_read-append 32 key (nonce ++ rest) hk,
    key_size_lem (Base.length key) hk,
    rand_read-append 12 nonce rest hn,
  )

  abbrev chunk_or : Chunk → Result Chunk → Chunk
  chunk_or c (ok d) = d
  chunk_or c _ = c

  -- A chunk that was built, from what randomness, and what is left of that.
  pub record Built (file_id : List ℕ) (index : ℕ) (plaintext entropy : List ℕ) (c : Chunk)
      (rest : List ℕ) : Type 0 where
    pub key : List ℕ
    pub nonce : List ℕ
    pub key_length : Base.length key ≡ key_size
    pub nonce_length : Base.length nonce ≡ nonce_size
    pub drew : entropy ≡ key ++ (nonce ++ rest)
    pub is_sealed : c ≡ sealed_chunk key nonce file_id index plaintext

  abbrev GivesNone : Result Chunk × List ℕ → Type 0
  GivesNone (ok _, _) = ⊥
  GivesNone _ = Unit

  -- Without 44 bytes of randomness no chunk is built.
  build_too_little :
      (file_id : List ℕ) (index : ℕ) (plaintext entropy : List ℕ)
      → Base.length entropy < 44
      → GivesNone (build_and_encrypt_chunk C file_id index plaintext entropy)
  unfolding build_and_encrypt_chunk rand_read
  build_too_little file_id index plaintext entropy h =
      elim (Bool-cases (leb 32 (Base.length entropy))) [
        | inl enough ↦
            let long = leb-true 32 (Base.length entropy) enough in
            let size =
              key_size_lem (Base.length (take 32 entropy))
                (omega (arith, long, Base.length-take 32 entropy)) in
            let less =
              leb-false 12 (Base.length (drop 32 entropy))
                (omega (arith, Base.length-drop 32 entropy)) in
            rw (enough, size, less) tt
        | inr short ↦ rw short tt
      ]

  pub build_and_encrypt_chunk-Built :
      (file_id : List ℕ) (index : ℕ) (plaintext entropy rest : List ℕ) (c : Chunk)
      → build_and_encrypt_chunk C file_id index plaintext entropy ≡ (ok c, rest)
      → Built file_id index plaintext entropy c rest
  build_and_encrypt_chunk-Built file_id index plaintext entropy rest c e =
      elim (Bool-cases (leb 44 (Base.length entropy))) [
        | inl enough ↦
            let long = leb-true 44 (Base.length entropy) enough in
            let key = take 32 entropy in
            let nonce = take 12 (drop 32 entropy) in
            let left = drop 12 (drop 32 entropy) in
            let hk : Base.length key ≡ key_size = omega (arith, Base.length-take 32 entropy) in
            let hn : Base.length nonce ≡ nonce_size =
              omega (arith, Base.length-take 12 (drop 32 entropy), Base.length-drop 32 entropy) in
            let drew : entropy ≡ key ++ (nonce ++ left) = sym (
              ap (λ r. key ++ r) (Base.take-append-drop 12 (drop 32 entropy))
              ∙ Base.take-append-drop 32 entropy) in
            let built =
              ap (build_and_encrypt_chunk C file_id index plaintext) drew
              ∙ build_and_encrypt_chunk_lem file_id index plaintext key nonce left hk hn in
            let same = sym built ∙ e in
            record {
              key = key;
              nonce = nonce;
              key_length = hk;
              nonce_length = hn;
              drew =
                  drew
                  ∙ ap (λ r. key ++ (nonce ++ r)) (ap (λ (r : Result Chunk × List ℕ). r.1) same);
              is_sealed = sym (
                  ap
                    (λ (r : Result Chunk × List ℕ).
                      chunk_or (sealed_chunk key nonce file_id index plaintext) r.0)
                    same);
            }
        | inr short ↦ absurd (
            subst GivesNone e (
              build_too_little file_id index plaintext entropy
                (let less : Base.length entropy < 44 = ground arith in less)))
      ]

  -- `BuildAndEncryptChunk` returns a chunk exactly when the randomness begins with a key of 32 bytes and
  -- a nonce of 12: it takes those, and the chunk has them, the ciphertext under them, and the hash of
  -- key and plaintext as its commitment, but no leaf.
  pub build_and_encrypt_chunk_exact :
      (file_id : List ℕ) (index : ℕ) (plaintext entropy rest : List ℕ) (c : Chunk)
      → (build_and_encrypt_chunk C file_id index plaintext entropy ≡ (ok c, rest))
        ↔ Built file_id index plaintext entropy c rest
  build_and_encrypt_chunk_exact file_id index plaintext entropy rest c = (
    build_and_encrypt_chunk-Built file_id index plaintext entropy rest c,
    λ b.
        ap (build_and_encrypt_chunk C file_id index plaintext) b.drew
        ∙ build_and_encrypt_chunk_lem file_id index plaintext b.key b.nonce rest b.key_length
            b.nonce_length
        ∙ ap (λ d. (ok d, rest)) (sym b.is_sealed),
  )

  -- An accepted chunk: `Open` gave the plaintext, and key and plaintext have the committed hash.
  pub record Accepted (c : Chunk) (plaintext : List ℕ) (c' : Chunk) : Type 0 where
    pub authentic : C.gcm_open c.key c.nonce c.ciphertext ≡ some plaintext
    pub committed : keccak C (c.key ∷ plaintext ∷ []) ≡ c.h_resp
    pub filled : c' ≡ record c { plaintext = plaintext }

  -- `DecryptAndCheck` hands out a plaintext only where the ciphertext opens to it under the revealed
  -- key, and key and plaintext hash to the commitment.
  pub decrypt_and_check_sound :
      (c c' : Chunk) (plaintext : List ℕ)
      → decrypt_and_check C c ≡ (ok plaintext, c')
      → Accepted c plaintext c'
  unfolding decrypt_and_check
  decrypt_and_check_sound c c' plaintext e = ground (
    arith,
    list_eq_sound (compute_response_commitment C (record c { plaintext = plaintext })) c.h_resp,
  )

  -- Opening what was sealed gives the plaintext back.
  pub decrypt_and_check_accepts :
      (c : Chunk) (plaintext : List ℕ)
      → Base.length c.key ≡ key_size
      → Base.length c.nonce ≡ nonce_size
      → C.gcm_open c.key c.nonce c.ciphertext ≡ some plaintext
      → keccak C (c.key ∷ plaintext ∷ []) ≡ c.h_resp
      → decrypt_and_check C c ≡ (ok plaintext, record c { plaintext = plaintext })
  unfolding decrypt_and_check
  decrypt_and_check_accepts c plaintext hk hn ho hc = ground (arith, list_eq_refl c.h_resp)

  commitment_matches :
      (c : Chunk) (plaintext : List ℕ)
      → keccak C (c.key ∷ plaintext ∷ []) ≡ c.h_resp
      → list_eq (compute_response_commitment C (record c { plaintext = plaintext })) c.h_resp ≡ true
  unfolding compute_response_commitment
  commitment_matches c plaintext e = ap (λ x. list_eq x c.h_resp) e ∙ list_eq_refl c.h_resp

  -- `DecryptAndCheck` hands out a plaintext exactly when the key has a size of AES, the nonce has 12
  -- bytes, the ciphertext opens to the plaintext under them, and key and plaintext have the hash that
  -- was committed to; the plaintext is then stored in the chunk.
  pub decrypt_and_check_exact :
      (c c' : Chunk) (plaintext : List ℕ)
      → (decrypt_and_check C c ≡ (ok plaintext, c')) ↔ (
          (is_key_size (Base.length c.key) ≡ true)
          × (Base.length c.nonce ≡ nonce_size)
          × Accepted c plaintext c')
  unfolding decrypt_and_check
  decrypt_and_check_exact c c' plaintext = (
    λ e. (ground arith, ground arith, decrypt_and_check_sound c c' plaintext e),
    λ (hk, hn, a).
        rw
          (
            hk,
            (==_iff (Base.length c.nonce) nonce_size).1 hn,
            a.authentic,
            commitment_matches c plaintext a.committed,
          )
          (ap (λ d. (ok plaintext, d)) (sym a.filled)),
  )

  -- Two chunks with one commitment and 32-byte keys that `DecryptAndCheck` accepts have the same key and
  -- plaintext, or two different texts with one hash are given.
  pub commitment_binding :
      (c c' d d' : Chunk) (p q : List ℕ)
      → Base.length c.key ≡ key_size
      → Base.length d.key ≡ key_size
      → c.h_resp ≡ d.h_resp
      → decrypt_and_check C c ≡ (ok p, c')
      → decrypt_and_check C d ≡ (ok q, d')
      → ((c.key ≡ d.key) × (p ≡ q)) ⊎ Collision C
  commitment_binding c c' d d' p q hc hd same ec ed =
      let a = decrypt_and_check_sound c c' p ec in
      let b = decrypt_and_check_sound d d' q ed in
      elim (keccak_binding C (c.key ∷ p ∷ []) (d.key ∷ q ∷ [])
        (a.committed ∙ same ∙ sym b.committed)) [
          | inl e ↦
              let (k, r) = append_split c.key d.key (omega arith) e in
              inl (k, sym (append-nil p) ∙ r ∙ append-nil q)
          | inr x ↦ inr x
        ]
