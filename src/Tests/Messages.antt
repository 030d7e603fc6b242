-- ===== src/Tests/Messages.antt =====
-- The messages on the wire, at concrete bytes.
use file_transfer_using_libp.Base.{
  ℕ, ◌≡◌, ◌↔◌, refl, List, [], ◌∷◌, ◌++◌, replicate, ok, IsU32, arith, All, put_uint32,
}
use file_transfer_using_libp.Base
use file_transfer_using_libp.Protocol.Types.{MetaData, Chunk, key_size, hash_size}
use file_transfer_using_libp.Wire.{
  encode_header, read_header, encode_chunk_request, read_chunk_request, encode_lottery_ticket,
  read_lottery_ticket, encode_key_reveal, read_key_reveal, encode_root, read_root,
  encode_chunk_response, read_chunk_response,
}
use file_transfer_using_libp.Wire.Reads.{feed, Took}
use file_transfer_using_libp.Wire.Header.{IsWireHeader}
use file_transfer_using_libp.Protocol.Stream.{Stream}
use file_transfer_using_libp.Wire.Exact.{
  read_header_exact, read_chunk_response_exact, read_chunk_request_exact, read_lottery_ticket_exact,
  read_key_reveal_exact, read_root_exact,
}
use file_transfer_using_libp.Wire.Response.{IsWireChunk, received_chunk}
use file_transfer_using_libp.Wire.Truncated.{Failed, read_header_truncated}
use file_transfer_using_libp.Base.{take, drop}
use file_transfer_using_libp.Tests.{open_conn, key_sevens, nonce_nines}

abbrev header : MetaData
header = record { name = 97 ∷ 98 ∷ []; file_size = 40000; reps = 2; file_id = replicate 32 5 }

header-IsWireHeader : IsWireHeader header
header-IsWireHeader = record {
  reps_fits = omega arith;
  size_fits = omega arith;
  id_size = refl;
  name_fits = omega arith;
}

abbrev three_bytes : List ℕ
three_bytes = replicate 32 3

abbrev response : Chunk
response = record {
  file_id = replicate 32 5;
  index = 300;
  length = 3;
  plaintext = 1 ∷ 2 ∷ 3 ∷ [];
  ciphertext = 4 ∷ 5 ∷ 6 ∷ 7 ∷ [];
  key = key_sevens;
  nonce = nonce_nines;
  h_resp = replicate 32 8;
  leaf = [];
}

response-IsWireChunk : IsWireChunk response
response-IsWireChunk = record {
  index_fits = omega arith;
  ciphertext_fits = omega arith;
  nonce_length = refl;
  h_resp_length = refl;
}

-- What the connection has, with a byte behind it, and what is left.
abbrev with_header : Stream
with_header = feed open_conn (encode_header header ++ (66 ∷ []))

read_header_exact_example :
    (read_header with_header ≡ (ok header, feed open_conn (66 ∷ [])))
    ↔ (Took (encode_header header) with_header (feed open_conn (66 ∷ [])) × IsWireHeader header)
unfolding encode_header put_uint32
read_header_exact_example =
    read_header_exact with_header (feed open_conn (66 ∷ [])) header (omega arith)

abbrev with_response : Stream
with_response = feed open_conn (encode_chunk_response response ++ (67 ∷ []))

read_chunk_response_exact_example :
    (read_chunk_response (replicate 32 5) with_response
      ≡ (ok (received_chunk (replicate 32 5) response), feed open_conn (67 ∷ [])))
    ↔ (Took
          (encode_chunk_response (received_chunk (replicate 32 5) response))
          with_response
          (feed open_conn (67 ∷ []))
        × IsWireChunk (received_chunk (replicate 32 5) response)
        × (received_chunk (replicate 32 5) response
            ≡ received_chunk (replicate 32 5) (received_chunk (replicate 32 5) response)))
unfolding encode_chunk_response put_uint32
read_chunk_response_exact_example =
    read_chunk_response_exact (replicate 32 5) with_response (feed open_conn (67 ∷ []))
      (received_chunk (replicate 32 5) response) (omega arith)

read_chunk_request_exact_example :
    (read_chunk_request (feed open_conn (encode_chunk_request 70000 ++ (66 ∷ [])))
      ≡ (ok 70000, feed open_conn (66 ∷ [])))
    ↔ (Took
          (encode_chunk_request 70000)
          (feed open_conn (encode_chunk_request 70000 ++ (66 ∷ [])))
          (feed open_conn (66 ∷ []))
        × IsU32 70000)
unfolding encode_chunk_request put_uint32
read_chunk_request_exact_example =
    read_chunk_request_exact (feed open_conn (encode_chunk_request 70000 ++ (66 ∷ [])))
      (feed open_conn (66 ∷ [])) 70000 (omega arith)

read_lottery_ticket_exact_example :
    (read_lottery_ticket (feed open_conn (encode_lottery_ticket 9 ++ []))
      ≡ (ok 9, feed open_conn []))
    ↔ (Took
          (encode_lottery_ticket 9)
          (feed open_conn (encode_lottery_ticket 9 ++ []))
          (feed open_conn [])
        × IsU32 9)
unfolding encode_lottery_ticket put_uint32
read_lottery_ticket_exact_example =
    read_lottery_ticket_exact (feed open_conn (encode_lottery_ticket 9 ++ [])) (feed open_conn []) 9
      (omega arith)

read_key_reveal_exact_example :
    (read_key_reveal (feed open_conn (encode_key_reveal 1 key_sevens ++ (68 ∷ [])))
      ≡ (ok (1, key_sevens), feed open_conn (68 ∷ [])))
    ↔ (Took
          (encode_key_reveal 1 key_sevens)
          (feed open_conn (encode_key_reveal 1 key_sevens ++ (68 ∷ [])))
          (feed open_conn (68 ∷ []))
        × IsU32 1
        × (Base.length key_sevens ≡ key_size))
unfolding encode_key_reveal put_uint32
read_key_reveal_exact_example =
    read_key_reveal_exact (feed open_conn (encode_key_reveal 1 key_sevens ++ (68 ∷ [])))
      (feed open_conn (68 ∷ [])) 1 key_sevens (omega arith)

read_root_exact_example :
    (read_root (feed open_conn (encode_root three_bytes ++ (71 ∷ [])))
      ≡ (ok three_bytes, feed open_conn (71 ∷ [])))
    ↔ (Took
          (encode_root three_bytes)
          (feed open_conn (encode_root three_bytes ++ (71 ∷ [])))
          (feed open_conn (71 ∷ []))
        × (Base.length three_bytes ≡ hash_size))
read_root_exact_example =
    read_root_exact (feed open_conn (encode_root three_bytes ++ (71 ∷ [])))
      (feed open_conn (71 ∷ [])) three_bytes

read_header_truncated_example :
    Failed (read_header (feed open_conn (take 20 (encode_header header))))
unfolding encode_header put_uint32
read_header_truncated_example =
    read_header_truncated header (take 20 (encode_header header)) (drop 20 (encode_header header))
      open_conn header-IsWireHeader (omega arith) refl (omega arith)
