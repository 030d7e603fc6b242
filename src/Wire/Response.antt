-- ===== src/Wire/Response.antt =====
-- The chunk response on the wire: `SendChunkResponse` against `ReadChunkResponse`.
use file_transfer_using_libp.Base.{
  ℕ, ◌+◌, ◌^◌, ◌≤◌, ◌<◌, ◌≡◌, refl, sym, ap, ◌∙◌, subst, List, [], ◌∷◌, ◌++◌, append_assoc, arith,
  IsByte, IsU32, u32, put_uint32, uint32, length-put_uint32, uint32-put_uint32, put_uint32-uint32,
  uint32-IsU32, Result, ok, All, Act, and_then, ◌>>=◌,
}
use file_transfer_using_libp.Base
use file_transfer_using_libp.Protocol.Types.{Chunk, hash_size, nonce_size}
use file_transfer_using_libp.Protocol.Stream.{Stream}
use file_transfer_using_libp.Wire.{encode_chunk_response, read_chunk_response, msg_chunk_response}
use file_transfer_using_libp.Wire.Reads.{
  feed, read_full_then, read_sentinel_then, Took, Took-trans, Took-IsByte, sentinel_then-Took,
  read_full_then_took, ok_pair,
}

-- What the fields of a chunk have to be for the wire.
pub record IsWireChunk (c : Chunk) : Type 0 where
  pub index_fits : IsU32 c.index
  pub ciphertext_fits : IsU32 (Base.length c.ciphertext)
  pub nonce_length : Base.length c.nonce ≡ nonce_size
  pub h_resp_length : Base.length c.h_resp ≡ hash_size

-- The sizes are those of four of the fields.
pub IsWireChunk-same :
    (c d : Chunk)
    → c.index ≡ d.index
    → c.ciphertext ≡ d.ciphertext
    → c.nonce ≡ d.nonce
    → c.h_resp ≡ d.h_resp
    → IsWireChunk c
    → IsWireChunk d
IsWireChunk-same c d i x n h w = record {
  index_fits = subst IsU32 i w.index_fits;
  ciphertext_fits = subst (λ xs. IsU32 (Base.length xs)) x w.ciphertext_fits;
  nonce_length = ap Base.length (sym n) ∙ w.nonce_length;
  h_resp_length = ap Base.length (sym h) ∙ w.h_resp_length;
}

-- What the receiver knows of a chunk once its response is there: neither plaintext nor key.
unfoldable pub received_chunk : List ℕ → Chunk → Chunk
received_chunk file_id c = record {
  file_id = file_id;
  index = c.index;
  length = u32 (Base.length c.ciphertext);
  plaintext = [];
  ciphertext = c.ciphertext;
  key = [];
  nonce = c.nonce;
  h_resp = c.h_resp;
  leaf = [];
}

response_fields :
    (k : Chunk) (rest : List ℕ)
    → encode_chunk_response k ++ rest
      ≡ msg_chunk_response
        ∷ (put_uint32 k.index
            ++ (put_uint32 (u32 (Base.length k.ciphertext))
                ++ (k.ciphertext ++ (k.nonce ++ (k.h_resp ++ rest)))))
unfolding encode_chunk_response
response_fields k rest = simp append_assoc

wire_length : (n : ℕ) → IsU32 n → n ≡ uint32 (put_uint32 (u32 n))
wire_length n h = sym (uint32-put_uint32 (u32 n) (omega arith) ∙ omega arith)

-- `ReadChunkResponse` gives back index, ciphertext, nonce and commitment as `SendChunkResponse`
-- wrote them; key and plaintext of the sender's chunk do not show.
pub read_chunk_response-encode :
    (file_id : List ℕ) (k : Chunk) (rest : List ℕ) (c : Stream)
    → IsWireChunk k
    → read_chunk_response file_id (feed c (encode_chunk_response k ++ rest))
      ≡ (ok (received_chunk file_id k), feed c rest)
unfolding read_chunk_response received_chunk
read_chunk_response-encode file_id k rest c v =
    let n = Base.length k.ciphertext in
    ap (λ bs. read_chunk_response file_id (feed c bs)) (response_fields k rest)
    ∙ read_sentinel_then msg_chunk_response "chunk response" _ c _
    ∙ read_full_then 4 (put_uint32 k.index) _ c _ (length-put_uint32 k.index)
    ∙ read_full_then 4 (put_uint32 (u32 n)) _ c _ (length-put_uint32 (u32 n))
    ∙ read_full_then (uint32 (put_uint32 (u32 n))) k.ciphertext _ c _
        (wire_length n v.ciphertext_fits)
    ∙ read_full_then 12 k.nonce _ c _ v.nonce_length
    ∙ read_full_then 32 k.h_resp rest c _ v.h_resp_length
    ∙ rw (uint32-put_uint32 k.index v.index_fits)

-- The bytes of four fields, and the chunk that they make.
abbrev chunk_of : List ℕ → List ℕ → List ℕ → List ℕ → List ℕ → Chunk
chunk_of file_id index ciphertext nonce h_resp = record {
  file_id = file_id;
  index = uint32 index;
  length = u32 (Base.length ciphertext);
  plaintext = [];
  ciphertext = ciphertext;
  key = [];
  nonce = nonce;
  h_resp = h_resp;
  leaf = [];
}

encode-chunk_of :
    (file_id index size ciphertext nonce h_resp : List ℕ)
    → Base.length index ≡ 4
    → Base.length size ≡ 4
    → Base.length ciphertext ≡ uint32 size
    → All IsByte index
    → All IsByte size
    → encode_chunk_response (chunk_of file_id index ciphertext nonce h_resp)
      ≡ (msg_chunk_response ∷ []) ++ (index ++ (size ++ (ciphertext ++ (nonce ++ h_resp))))
unfolding encode_chunk_response
encode-chunk_of file_id index size ciphertext nonce h_resp li ls e bi bs =
    let small : u32 (Base.length ciphertext) ≡ uint32 size = omega (arith, uint32-IsU32 size bs) in
    rw (small, put_uint32-uint32 index li bi, put_uint32-uint32 size ls bs)

response_taken :
    (file_id index size ciphertext nonce h_resp : List ℕ) (c c1 c2 c3 c4 c5 c6 : Stream)
    → All IsByte c.incoming
    → Took (msg_chunk_response ∷ []) c c1
    → Took index c1 c2
    → Base.length index ≡ 4
    → Took size c2 c3
    → Base.length size ≡ 4
    → Took ciphertext c3 c4
    → Base.length ciphertext ≡ uint32 size
    → Took nonce c4 c5
    → Base.length nonce ≡ 12
    → Took h_resp c5 c6
    → Base.length h_resp ≡ 32
    → Took (encode_chunk_response (chunk_of file_id index ciphertext nonce h_resp)) c c6
      × IsWireChunk (chunk_of file_id index ciphertext nonce h_resp)
response_taken file_id index size ciphertext nonce h_resp c c1 c2 c3 c4 c5 c6 bytes t1 t2 l2 t3 l3
      t4 l4 t5 l5 t6 l6 =
    let b2 = Took-IsByte t2 (Took-IsByte t1 bytes).1 in
    let b3 = Took-IsByte t3 b2.1 in
    let took = Took-trans t1 (Took-trans t2 (Took-trans t3 (Took-trans t4 (Took-trans t5 t6)))) in
    let whole = encode-chunk_of file_id index size ciphertext nonce h_resp l2 l3 l4 b2.0 b3.0 in
    (
      subst (λ bs. Took bs c c6) (sym whole) took,
      record {
        index_fits = uint32-IsU32 index b2.0;
        ciphertext_fits = omega (arith, uint32-IsU32 size b3.0);
        nonce_length = l5;
        h_resp_length = l6;
      },
    )

-- Whatever `ReadChunkResponse` accepts is the encoding of the chunk that it returns, and that chunk
-- has the sizes of the wire, the file id that was given, and neither plaintext nor key nor leaf.
pub read_chunk_response-Took :
    (file_id : List ℕ) (c c' : Stream) (k : Chunk)
    → All IsByte c.incoming
    → read_chunk_response file_id c ≡ (ok k, c')
    → Took (encode_chunk_response k) c c' × IsWireChunk k × (k ≡ received_chunk file_id k)
unfolding read_chunk_response received_chunk
read_chunk_response-Took file_id c c' k bytes e =
    let (c1, t1, e1) = sentinel_then-Took msg_chunk_response "chunk response" c _ k c' e in
    let (index, c2, t2, l2, e2) = read_full_then_took 4 c1 _ k c' e1 in
    let (size, c3, t3, l3, e3) = read_full_then_took 4 c2 _ k c' e2 in
    let (ciphertext, c4, t4, l4, e4) = read_full_then_took (uint32 size) c3 _ k c' e3 in
    let (nonce, c5, t5, l5, e5) = read_full_then_took 12 c4 _ k c' e4 in
    let (h_resp, c6, t6, l6, e6) = read_full_then_took 32 c5 _ k c' e5 in
    let taken =
      response_taken file_id index size ciphertext nonce h_resp c c1 c2 c3 c4 c5 c6 bytes t1 t2 l2
        t3 l3 t4 l4 t5 l5 t6 l6 in
    ok_pair
      (λ k' d.
        Took (encode_chunk_response k') c d × IsWireChunk k' × (k' ≡ received_chunk file_id k'))
      e6 (taken.0, taken.1, refl)

-- The nonce of a chunk that was read has 12 bytes, whatever the bytes are, and its file id is the
-- one that was given.
pub read_chunk_response_nonce :
    (file_id : List ℕ) (c c' : Stream) (k : Chunk)
    → read_chunk_response file_id c ≡ (ok k, c')
    → (Base.length k.nonce ≡ nonce_size) × (k.file_id ≡ file_id)
unfolding read_chunk_response
read_chunk_response_nonce file_id c c' k e =
    let (c1, t1, e1) = sentinel_then-Took msg_chunk_response "chunk response" c _ k c' e in
    let (index, c2, t2, l2, e2) = read_full_then_took 4 c1 _ k c' e1 in
    let (size, c3, t3, l3, e3) = read_full_then_took 4 c2 _ k c' e2 in
    let (ciphertext, c4, t4, l4, e4) = read_full_then_took (uint32 size) c3 _ k c' e3 in
    let (nonce, c5, t5, l5, e5) = read_full_then_took 12 c4 _ k c' e4 in
    let (h_resp, c6, t6, l6, e6) = read_full_then_took 32 c5 _ k c' e5 in
    ok_pair (λ k' d. (Base.length k'.nonce ≡ nonce_size) × (k'.file_id ≡ file_id)) e6 (l5, refl)
