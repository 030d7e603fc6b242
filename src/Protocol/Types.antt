-- ===== src/Protocol/Types.antt =====
-- Protocol/protocol.go: the header of a transfer, a chunk, and the sizes. A byte slice is a list of
-- numbers, `nil` the empty one.
use file_transfer_using_libp.Base.{ℕ, List, [], u32}
use file_transfer_using_libp.Base

pub record MetaData : Type 0 where
  pub name : List ℕ
  pub file_size : ℕ  -- uint32
  pub reps : ℕ  -- uint32
  pub file_id : List ℕ

pub record Chunk : Type 0 where
  pub file_id : List ℕ
  pub index : ℕ  -- uint32
  pub length : ℕ  -- uint32
  pub plaintext : List ℕ
  pub ciphertext : List ℕ
  pub key : List ℕ
  pub nonce : List ℕ
  pub h_resp : List ℕ
  pub leaf : List ℕ

-- `NewChunk`.
unfoldable pub new_chunk : List ℕ → ℕ → List ℕ → Chunk
new_chunk file_id index data' = record {
  file_id = file_id;
  index = index;
  length = u32 (Base.length data');
  plaintext = data';
  ciphertext = [];
  key = [];
  nonce = [];
  h_resp = [];
  leaf = [];
}

abbrev pub key_size : ℕ
key_size = 32

abbrev pub nonce_size : ℕ
nonce_size = 12

abbrev pub hash_size : ℕ
hash_size = 32

abbrev pub chunk_size : ℕ
chunk_size = 32768
