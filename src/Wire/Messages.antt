-- ===== src/Wire/Messages.antt =====
-- The short messages on the wire: chunk request, lottery ticket, key reveal, Merkle root and final
-- acknowledgement.
use file_transfer_using_libp.Base.{
  ℕ, ◌≡◌, sym, ap, ◌∙◌, subst, List, [], ◌∷◌, ◌++◌, append_assoc, length, IsByte, IsU32, put_uint32,
  uint32, length-put_uint32, uint32-put_uint32, put_uint32-uint32, uint32-IsU32, ok, All,
}
use file_transfer_using_libp.Protocol.Types.{hash_size, key_size}
use file_transfer_using_libp.Protocol.Stream.{Stream}
use file_transfer_using_libp.Wire.{
  msg_chunk_request, msg_lottery_ticket, msg_key_reveal, msg_merkle_root, msg_final_ack,
  encode_chunk_request, read_chunk_request, encode_lottery_ticket, read_lottery_ticket,
  encode_key_reveal, read_key_reveal, encode_root, read_root, encode_final_ack, read_final_ack,
}
use file_transfer_using_libp.Wire.Reads.{
  feed, read_full-append, read_full_then, read_sentinel_then, read_sentinel-cons, read_full-Took,
  Took, Took-trans, Took-IsByte, sentinel_then-Took, read_full_then_took, ok_pair,
}

-- A message that is a sentinel and an index.
abbrev index_message : ℕ → ℕ → List ℕ
index_message sentinel index = (sentinel ∷ []) ++ put_uint32 index

index-Took :
    (sentinel : ℕ) (buf : List ℕ) (c c1 c2 : Stream)
    → All IsByte c.incoming
    → Took (sentinel ∷ []) c c1
    → Took buf c1 c2
    → length buf ≡ 4
    → Took (index_message sentinel (uint32 buf)) c c2 × IsU32 (uint32 buf)
index-Took sentinel buf c c1 c2 bytes t1 t2 l2 =
    let b2 = Took-IsByte t2 (Took-IsByte t1 bytes).1 in
    (
      subst (λ bs. Took ((sentinel ∷ []) ++ bs) c c2) (sym (put_uint32-uint32 buf l2 b2.0))
          (Took-trans t1 t2),
      uint32-IsU32 buf b2.0,
    )

-- `ReadChunkRequest` gives back the index that `SendChunkRequest` wrote.
pub read_chunk_request-encode :
    (index : ℕ) (rest : List ℕ) (c : Stream)
    → IsU32 index
    → read_chunk_request (feed c (encode_chunk_request index ++ rest)) ≡ (ok index, feed c rest)
unfolding read_chunk_request encode_chunk_request
read_chunk_request-encode index rest c h =
    read_sentinel_then msg_chunk_request "chunk request" _ c _
    ∙ read_full_then 4 (put_uint32 index) rest c _ (length-put_uint32 index)
    ∙ rw (uint32-put_uint32 index h)

-- Whatever `ReadChunkRequest` accepts is the encoding of the index that it returns.
pub read_chunk_request-Took :
    (c c' : Stream) (index : ℕ)
    → All IsByte c.incoming
    → read_chunk_request c ≡ (ok index, c')
    → Took (encode_chunk_request index) c c' × IsU32 index
unfolding read_chunk_request encode_chunk_request
read_chunk_request-Took c c' index bytes e =
    let (c1, t1, e1) = sentinel_then-Took msg_chunk_request "chunk request" c _ index c' e in
    let (buf, c2, t2, l2, e2) = read_full_then_took 4 c1 _ index c' e1 in
    ok_pair (λ i d. Took (index_message msg_chunk_request i) c d × IsU32 i) e2
      (index-Took msg_chunk_request buf c c1 c2 bytes t1 t2 l2)

-- `ReadLotteryTicket` gives back the index that `SendLotteryTicket` wrote.
pub read_lottery_ticket-encode :
    (index : ℕ) (rest : List ℕ) (c : Stream)
    → IsU32 index
    → read_lottery_ticket (feed c (encode_lottery_ticket index ++ rest)) ≡ (ok index, feed c rest)
unfolding read_lottery_ticket encode_lottery_ticket
read_lottery_ticket-encode index rest c h =
    read_sentinel_then msg_lottery_ticket "lottery ticket" _ c _
    ∙ read_full_then 4 (put_uint32 index) rest c _ (length-put_uint32 index)
    ∙ rw (uint32-put_uint32 index h)

-- Whatever `ReadLotteryTicket` accepts is the encoding of the index that it returns.
pub read_lottery_ticket-Took :
    (c c' : Stream) (index : ℕ)
    → All IsByte c.incoming
    → read_lottery_ticket c ≡ (ok index, c')
    → Took (encode_lottery_ticket index) c c' × IsU32 index
unfolding read_lottery_ticket encode_lottery_ticket
read_lottery_ticket-Took c c' index bytes e =
    let (c1, t1, e1) = sentinel_then-Took msg_lottery_ticket "lottery ticket" c _ index c' e in
    let (buf, c2, t2, l2, e2) = read_full_then_took 4 c1 _ index c' e1 in
    ok_pair (λ i d. Took (index_message msg_lottery_ticket i) c d × IsU32 i) e2
      (index-Took msg_lottery_ticket buf c c1 c2 bytes t1 t2 l2)

-- `ReadKeyReveal` gives back the index and the key that `SendKeyReveal` wrote.
pub read_key_reveal-encode :
    (index : ℕ) (key rest : List ℕ) (c : Stream)
    → IsU32 index
    → length key ≡ key_size
    → read_key_reveal (feed c (encode_key_reveal index key ++ rest))
      ≡ (ok (index, key), feed c rest)
unfolding read_key_reveal encode_key_reveal
read_key_reveal-encode index key rest c h l =
    ap (λ bs. read_key_reveal (feed c (msg_key_reveal ∷ bs)))
      (append_assoc (put_uint32 index) key rest)
    ∙ read_sentinel_then msg_key_reveal "key reveal" _ c _
    ∙ read_full_then 4 (put_uint32 index) _ c _ (length-put_uint32 index)
    ∙ read_full_then 32 key rest c _ l
    ∙ rw (uint32-put_uint32 index h)

key_reveal_taken :
    (buf key : List ℕ) (c c1 c2 c3 : Stream)
    → All IsByte c.incoming
    → Took (msg_key_reveal ∷ []) c c1
    → Took buf c1 c2
    → length buf ≡ 4
    → Took key c2 c3
    → Took (encode_key_reveal (uint32 buf) key) c c3 × IsU32 (uint32 buf)
unfolding encode_key_reveal
key_reveal_taken buf key c c1 c2 c3 bytes t1 t2 l2 t3 =
    let b2 = Took-IsByte t2 (Took-IsByte t1 bytes).1 in
    (
      subst (λ bs. Took ((msg_key_reveal ∷ []) ++ (bs ++ key)) c c3)
          (sym (put_uint32-uint32 buf l2 b2.0)) (Took-trans t1 (Took-trans t2 t3)),
      uint32-IsU32 buf b2.0,
    )

-- Whatever `ReadKeyReveal` accepts is the encoding of the index and the key that it returns.
pub read_key_reveal-Took :
    (c c' : Stream) (index : ℕ) (key : List ℕ)
    → All IsByte c.incoming
    → read_key_reveal c ≡ (ok (index, key), c')
    → Took (encode_key_reveal index key) c c' × IsU32 index × (length key ≡ key_size)
unfolding read_key_reveal
read_key_reveal-Took c c' index key bytes e =
    let (c1, t1, e1) = sentinel_then-Took msg_key_reveal "key reveal" c _ (index, key) c' e in
    let (buf, c2, t2, l2, e2) = read_full_then_took 4 c1 _ (index, key) c' e1 in
    let (key', c3, t3, l3, e3) = read_full_then_took 32 c2 _ (index, key) c' e2 in
    let taken = key_reveal_taken buf key' c c1 c2 c3 bytes t1 t2 l2 t3 in
    ok_pair (λ (i, k) d. Took (encode_key_reveal i k) c d × IsU32 i × (length k ≡ key_size)) e3
      (taken.0, taken.1, l3)

-- The key that was read has 32 bytes, whatever the bytes are.
pub read_key_reveal_key :
    (c c' : Stream) (revealed : ℕ × List ℕ)
    → read_key_reveal c ≡ (ok revealed, c')
    → length revealed.1 ≡ key_size
unfolding read_key_reveal
read_key_reveal_key c c' revealed e =
    let (c1, t1, e1) = sentinel_then-Took msg_key_reveal "key reveal" c _ revealed c' e in
    let (buf, c2, t2, l2, e2) = read_full_then_took 4 c1 _ revealed c' e1 in
    let (key, c3, t3, l3, e3) = read_full_then_took 32 c2 _ revealed c' e2 in
    ok_pair (λ r d. length r.1 ≡ key_size) e3 l3

-- `ReadRoot` gives back the root that `SendRoot` wrote.
pub read_root-encode :
    (root rest : List ℕ) (c : Stream)
    → length root ≡ hash_size
    → read_root (feed c (encode_root root ++ rest)) ≡ (ok root, feed c rest)
unfolding read_root encode_root
read_root-encode root rest c l =
    read_sentinel_then msg_merkle_root "merkle root" _ c _ ∙ read_full-append 32 root rest c l

-- Whatever `ReadRoot` accepts is the encoding of the 32 bytes that it returns.
pub read_root-Took :
    (c c' : Stream) (root : List ℕ)
    → read_root c ≡ (ok root, c')
    → Took (encode_root root) c c' × (length root ≡ hash_size)
unfolding read_root encode_root
read_root-Took c c' root e =
    let (c1, t1, e1) = sentinel_then-Took msg_merkle_root "merkle root" c _ root c' e in
    let t = read_full-Took 32 c1 root c' e1 in (Took-trans t1 t.0, t.1)

-- `ReadFinalAck` accepts what `SendFinalAck` wrote.
pub read_final_ack-encode :
    (rest : List ℕ) (c : Stream)
    → read_final_ack (feed c (encode_final_ack ++ rest)) ≡ (ok tt, feed c rest)
unfolding read_final_ack
read_final_ack-encode rest c = read_sentinel-cons msg_final_ack "final ack" rest c
