-- ===== src/Wire/Exact.antt =====
-- The messages once more, each with both directions in one statement: a reader accepts exactly
-- what its writer writes.
use file_transfer_using_libp.Base.{
  ℕ, ◌≡◌, sym, ap, ◌∙◌, ◌↔◌, List, ◌++◌, length, IsByte, IsU32, ok, All, Act,
}
use file_transfer_using_libp.Protocol.Types.{Chunk, MetaData, hash_size, key_size}
use file_transfer_using_libp.Protocol.Stream.{Stream}
use file_transfer_using_libp.Wire.{
  encode_chunk_request, read_chunk_request, encode_lottery_ticket, read_lottery_ticket,
  encode_key_reveal, read_key_reveal, encode_root, read_root, encode_header, read_header,
  encode_chunk_response, read_chunk_response,
}
use file_transfer_using_libp.Wire.Header.{IsWireHeader, read_header-encode, read_header-Took}
use file_transfer_using_libp.Wire.Response.{
  IsWireChunk, received_chunk, read_chunk_response-encode, read_chunk_response-Took,
}
use file_transfer_using_libp.Wire.Reads.{feed, Took}
use file_transfer_using_libp.Wire.Messages.{
  read_chunk_request-encode, read_chunk_request-Took, read_lottery_ticket-encode,
  read_lottery_ticket-Took, read_key_reveal-encode, read_key_reveal-Took, read_root-encode,
  read_root-Took,
}

-- A reader that gives back what follows an encoding accepts a connection that begins with it.
reads_Took :
    {A : Type 0} (read : Act Stream A) (xs : List ℕ) (a : A) (c c' : Stream)
    → ((rest : List ℕ) → read (feed c (xs ++ rest)) ≡ (ok a, feed c rest))
    → Took xs c c'
    → read c ≡ (ok a, c')
reads_Took read xs a c c' reads t =
    ap (λ bs. read (feed c bs)) t.before ∙ reads c'.incoming ∙ ap (λ d. (ok a, d)) (sym t.after)

-- On a stream of bytes, `ReadChunkRequest` returns an index exactly when it is a uint32 and the
-- stream begins with what `SendChunkRequest` writes for it, and it takes that.
pub read_chunk_request_exact :
    (c c' : Stream) (index : ℕ)
    → All IsByte c.incoming
    → (read_chunk_request c ≡ (ok index, c'))
      ↔ (Took (encode_chunk_request index) c c' × IsU32 index)
read_chunk_request_exact c c' index bytes = (
  read_chunk_request-Took c c' index bytes,
  λ (t, fits).
      reads_Took read_chunk_request (encode_chunk_request index) index c c'
        (λ rest. read_chunk_request-encode index rest c fits) t,
)

-- On a stream of bytes, `ReadLotteryTicket` returns an index exactly when it is a uint32 and the
-- stream begins with what `SendLotteryTicket` writes for it, and it takes that.
pub read_lottery_ticket_exact :
    (c c' : Stream) (index : ℕ)
    → All IsByte c.incoming
    → (read_lottery_ticket c ≡ (ok index, c'))
      ↔ (Took (encode_lottery_ticket index) c c' × IsU32 index)
read_lottery_ticket_exact c c' index bytes = (
  read_lottery_ticket-Took c c' index bytes,
  λ (t, fits).
      reads_Took read_lottery_ticket (encode_lottery_ticket index) index c c'
        (λ rest. read_lottery_ticket-encode index rest c fits) t,
)

-- On a stream of bytes, `ReadKeyReveal` returns an index and a key exactly when the one is a uint32,
-- the other has 32 bytes, and the stream begins with what `SendKeyReveal` writes for them, and it
-- takes that.
pub read_key_reveal_exact :
    (c c' : Stream) (index : ℕ) (key : List ℕ)
    → All IsByte c.incoming
    → (read_key_reveal c ≡ (ok (index, key), c'))
      ↔ (Took (encode_key_reveal index key) c c' × IsU32 index × (length key ≡ key_size))
read_key_reveal_exact c c' index key bytes = (
  read_key_reveal-Took c c' index key bytes,
  λ (t, fits, hk).
      reads_Took read_key_reveal (encode_key_reveal index key) (index, key) c c'
        (λ rest. read_key_reveal-encode index key rest c fits hk) t,
)

-- `ReadRoot` returns a root exactly when it has 32 bytes and the stream begins with what `SendRoot`
-- writes for it, and it takes that.
pub read_root_exact :
    (c c' : Stream) (root : List ℕ)
    → (read_root c ≡ (ok root, c')) ↔ (Took (encode_root root) c c' × (length root ≡ hash_size))
read_root_exact c c' root = (
  read_root-Took c c' root,
  λ (t, l).
      reads_Took read_root (encode_root root) root c c' (λ rest. read_root-encode root rest c l) t,
)

-- On a stream of bytes, `ReadHeader` returns a header exactly when that keeps to the limits of the
-- wire and the stream begins with what `SendHeader` writes for it, and it takes that.
pub read_header_exact :
    (c c' : Stream) (h : MetaData)
    → All IsByte c.incoming
    → (read_header c ≡ (ok h, c')) ↔ (Took (encode_header h) c c' × IsWireHeader h)
read_header_exact c c' h bytes = (
  read_header-Took c c' h bytes,
  λ (t, wire).
      reads_Took read_header (encode_header h) h c c' (λ rest. read_header-encode h rest c wire) t,
)

-- On a stream of bytes, `ReadChunkResponse` returns a chunk exactly when that has the sizes of the
-- wire, the file id that was given, the length of its ciphertext, and neither plaintext nor key nor
-- leaf, and the stream begins with what `SendChunkResponse` writes for it; and it takes that.
pub read_chunk_response_exact :
    (file_id : List ℕ) (c c' : Stream) (k : Chunk)
    → All IsByte c.incoming
    → (read_chunk_response file_id c ≡ (ok k, c'))
      ↔ (Took (encode_chunk_response k) c c' × IsWireChunk k × (k ≡ received_chunk file_id k))
read_chunk_response_exact file_id c c' k bytes = (
  read_chunk_response-Took file_id c c' k bytes,
  λ (t, wire, received).
      reads_Took (read_chunk_response file_id) (encode_chunk_response k) k c c'
        (λ rest.
          read_chunk_response-encode file_id k rest c wire
          ∙ ap (λ j. (ok j, feed c rest)) (sym received))
        t,
)
