-- ===== src/Transfer.antt =====
-- A whole transfer: what an honest sender and an honest receiver say to one another, chunk by chunk.
pub mod Sending
pub mod Receiving
pub mod Content
pub mod Opening
pub mod Each
pub mod EndToEnd
pub mod Empty
pub mod Transcript
pub mod Told
pub mod Tampering
pub mod Cut
pub mod Turns
pub mod Parties
pub mod Inevitable
pub mod Waiting
pub mod Roots
pub mod Liveness
pub mod Schedule
use file_transfer_using_libp.Base.{ℕ, ◌+◌, ◌*◌, ◌≡◌, List, [], ◌∷◌, ◌++◌, take, drop}
use file_transfer_using_libp.Base
use file_transfer_using_libp.Protocol.Types.{Chunk, chunk_size, key_size, nonce_size}
use file_transfer_using_libp.Wire.{
  encode_chunk_request, encode_lottery_ticket, encode_chunk_response, encode_key_reveal,
}
use file_transfer_using_libp.Crypto.{Crypto}
use file_transfer_using_libp.Crypto.Chunks.{sealed_chunk}
use file_transfer_using_libp.Merkle.{generate_leaf}

-- The key and the nonce of each chunk, as the sender draws them from its randomness.
abbrev pub Secrets : Type 0
Secrets = List (List ℕ × List ℕ)

-- The randomness from which those are drawn, with `rest` behind it.
abbrev pub drawn : Secrets → List ℕ → List ℕ
drawn [] rest = rest
drawn ((key, nonce) ∷ secrets) rest = key ++ (nonce ++ drawn secrets rest)

-- A key of 32 bytes and a nonce of 12.
abbrev pub IsSecret : List ℕ × List ℕ → Type 0
IsSecret (key, nonce) = (Base.length key ≡ key_size) × (Base.length nonce ≡ nonce_size)

-- The bytes of chunk `i`.
abbrev pub slice : List ℕ → ℕ → List ℕ
slice content i = take chunk_size (drop (chunk_size * i) content)

module _ (C : Crypto) (file_id content : List ℕ) where
  -- The chunks of a file from index `i` on.
  abbrev pub chunks_from : ℕ → Secrets → List Chunk
  chunks_from i [] = []
  chunks_from i ((key, nonce) ∷ rest) =
      sealed_chunk C key nonce file_id i (slice content i) ∷ chunks_from (i + 1) rest

-- What the sender writes for a list of chunks, and what the receiver writes, with `rest` behind it.
abbrev pub sender_says : List Chunk → List ℕ → List ℕ
sender_says [] rest = rest
sender_says (k ∷ ks) rest =
    encode_chunk_response k ++ (encode_key_reveal k.index k.key ++ sender_says ks rest)

abbrev pub receiver_says : List Chunk → List ℕ → List ℕ
receiver_says [] rest = rest
receiver_says (k ∷ ks) rest =
    encode_chunk_request k.index ++ (encode_lottery_ticket k.index ++ receiver_says ks rest)

-- The leaves of chunks, behind those that are there.
abbrev pub with_leaves : Crypto → List (List ℕ) → List Chunk → List (List ℕ)
with_leaves C ls [] = ls
with_leaves C ls (k ∷ ks) = with_leaves C (ls ++ (generate_leaf C k ∷ [])) ks
