-- ===== src/Wire.antt =====
-- Chunk/chunk.go, the wire format: each message is a sentinel byte and its fields. `encode_…` is the
-- buffer that a function `Send…` fills and writes; `read_…` is the function `Read…`.
pub mod Reads
pub mod Plain
pub mod Header
pub mod Messages
pub mod Response
pub mod Exact
pub mod Truncated
use file_transfer_using_libp.Base.{
  ℕ, String, List, [], ◌∷◌, ◌++◌, length, ◌==◌, if◌then◌else◌, u32, put_uint32, uint32, wrap,
  expected, Act, pure, throw, ◌>>=◌, ◌>>◌, wrapping,
}
use file_transfer_using_libp.Protocol.Types.{MetaData, Chunk, hash_size, nonce_size, key_size}
use file_transfer_using_libp.Protocol.Stream.{Stream, read_full, write}

abbrev pub msg_header : ℕ
msg_header = 0x01

abbrev pub msg_chunk_request : ℕ
msg_chunk_request = 0x02

abbrev pub msg_chunk_response : ℕ
msg_chunk_response = 0x03

abbrev pub msg_lottery_ticket : ℕ
msg_lottery_ticket = 0x04

abbrev pub msg_key_reveal : ℕ
msg_key_reveal = 0x05

abbrev pub msg_merkle_root : ℕ
msg_merkle_root = 0x06

abbrev pub msg_final_ack : ℕ
msg_final_ack = 0x07

-- `b[0]` of a buffer that is not empty.
abbrev pub first_byte : List ℕ → ℕ
first_byte [] = 0
first_byte (b ∷ _) = b

abbrev pub check_byte : ℕ → String → ℕ → Act Stream (Unit {0})
check_byte want what b = if b == want then pure tt else throw (expected what want b)

-- `readSentinel`.
unfoldable pub read_sentinel : ℕ → String → Act Stream (Unit {0})
read_sentinel want what = do
  b ← wrapping (wrap what) (read_full 1)
  check_byte want what (first_byte b)

-- `SendHeader`.
unfoldable pub encode_header : MetaData → List ℕ
encode_header h =
    (msg_header ∷ [])
    ++ (put_uint32 h.reps
        ++ (h.file_id ++ (put_uint32 (u32 (length h.name)) ++ (h.name ++ put_uint32 h.file_size))))

unfoldable pub send_header : MetaData → Act Stream (Unit {0})
send_header h = write (encode_header h)

-- `ReadHeader`.
unfoldable pub read_header : Act Stream MetaData
read_header = do
  read_sentinel msg_header "header"
  reps ← wrapping (wrap "reading reps") (read_full 4)
  file_id ← wrapping (wrap "reading fileID") (read_full hash_size)
  name_length ← wrapping (wrap "reading name length") (read_full 4)
  name ← wrapping (wrap "reading name") (read_full (uint32 name_length))
  file_size ← wrapping (wrap "reading filesize") (read_full 4)
  pure (record { name = name; file_size = uint32 file_size; reps = uint32 reps; file_id = file_id })

-- `SendChunkRequest` and `SendLotteryTicket`: a sentinel and the index of a chunk.
unfoldable pub encode_chunk_request : ℕ → List ℕ
encode_chunk_request index = (msg_chunk_request ∷ []) ++ put_uint32 index

unfoldable pub send_chunk_request : ℕ → Act Stream (Unit {0})
send_chunk_request index = write (encode_chunk_request index)

unfoldable pub encode_lottery_ticket : ℕ → List ℕ
encode_lottery_ticket index = (msg_lottery_ticket ∷ []) ++ put_uint32 index

unfoldable pub send_lottery_ticket : ℕ → Act Stream (Unit {0})
send_lottery_ticket index = write (encode_lottery_ticket index)

-- `ReadChunkRequest`.
unfoldable pub read_chunk_request : Act Stream ℕ
read_chunk_request = do
  read_sentinel msg_chunk_request "chunk request"
  buf ← read_full 4
  pure (uint32 buf)

-- `ReadLotteryTicket`.
unfoldable pub read_lottery_ticket : Act Stream ℕ
read_lottery_ticket = do
  read_sentinel msg_lottery_ticket "lottery ticket"
  buf ← read_full 4
  pure (uint32 buf)

-- `SendChunkResponse`: the key is not among the fields.
unfoldable pub encode_chunk_response : Chunk → List ℕ
encode_chunk_response c =
    (msg_chunk_response ∷ [])
    ++ (put_uint32 c.index
        ++ (put_uint32 (u32 (length c.ciphertext)) ++ (c.ciphertext ++ (c.nonce ++ c.h_resp))))

unfoldable pub send_chunk_response : Chunk → Act Stream (Unit {0})
send_chunk_response c = write (encode_chunk_response c)

-- `ReadChunkResponse`, with the file id of the session.
unfoldable pub read_chunk_response : List ℕ → Act Stream Chunk
read_chunk_response file_id = do
  read_sentinel msg_chunk_response "chunk response"
  index ← read_full 4
  ciphertext_length ← read_full 4
  ciphertext ← read_full (uint32 ciphertext_length)
  nonce ← read_full nonce_size
  h_resp ← read_full hash_size
  pure (record {
    file_id = file_id;
    index = uint32 index;
    length = u32 (length ciphertext);
    plaintext = [];
    ciphertext = ciphertext;
    key = [];
    nonce = nonce;
    h_resp = h_resp;
    leaf = [];
  })

-- `SendKeyReveal`.
unfoldable pub encode_key_reveal : ℕ → List ℕ → List ℕ
encode_key_reveal index key = (msg_key_reveal ∷ []) ++ (put_uint32 index ++ key)

unfoldable pub send_key_reveal : ℕ → List ℕ → Act Stream (Unit {0})
send_key_reveal index key = write (encode_key_reveal index key)

-- `ReadKeyReveal`.
unfoldable pub read_key_reveal : Act Stream (ℕ × List ℕ)
read_key_reveal = do
  read_sentinel msg_key_reveal "key reveal"
  buf ← read_full 4
  key ← read_full key_size
  pure (uint32 buf, key)

-- `SendRoot`.
unfoldable pub encode_root : List ℕ → List ℕ
encode_root root = (msg_merkle_root ∷ []) ++ root

unfoldable pub send_root : List ℕ → Act Stream (Unit {0})
send_root root = write (encode_root root)

-- `ReadRoot`.
unfoldable pub read_root : Act Stream (List ℕ)
read_root = do read_sentinel msg_merkle_root "merkle root"; read_full hash_size

-- `SendFinalAck`.
abbrev pub encode_final_ack : List ℕ
encode_final_ack = msg_final_ack ∷ []

unfoldable pub send_final_ack : Act Stream (Unit {0})
send_final_ack = write encode_final_ack

-- `ReadFinalAck`.
unfoldable pub read_final_ack : Act Stream (Unit {0})
read_final_ack = read_sentinel msg_final_ack "final ack"
