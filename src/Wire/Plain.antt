-- ===== src/Wire/Plain.antt =====
-- No function of the wire format panics.
use file_transfer_using_libp.Base.{
  ℕ, String, List, arith, wrap, IsPlain, and_then-IsPlain, on_error-IsPlain,
}
use file_transfer_using_libp.Protocol.Stream.{Stream, read_full, write}
use file_transfer_using_libp.Wire.{
  read_sentinel, check_byte, first_byte, read_header, read_chunk_request, read_lottery_ticket,
  read_chunk_response, read_key_reveal, read_root, read_final_ack, msg_header, msg_chunk_request,
  msg_lottery_ticket, msg_chunk_response, msg_key_reveal, msg_merkle_root, msg_final_ack,
}

pub write-IsPlain : (buf : List ℕ) (c : Stream) → IsPlain (write buf c)
unfolding write
write-IsPlain buf c = ground arith

pub read_full-IsPlain : (n : ℕ) (c : Stream) → IsPlain (read_full n c)
unfolding read_full
read_full-IsPlain n c = ground arith

check_byte-IsPlain :
    (want : ℕ) (what : String) (b : ℕ) (c : Stream) → IsPlain (check_byte want what b c)
check_byte-IsPlain want what b c = ground arith

pub read_sentinel-IsPlain :
    (want : ℕ) (what : String) (c : Stream) → IsPlain (read_sentinel want what c)
unfolding read_sentinel
read_sentinel-IsPlain want what c =
    and_then-IsPlain _ _ (on_error-IsPlain (wrap what) (read_full 1 c) (read_full-IsPlain 1 c))
      λ b d. check_byte-IsPlain want what (first_byte b) d

pub read_header-IsPlain : (c : Stream) → IsPlain (read_header c)
unfolding read_header
read_header-IsPlain c = and_then-IsPlain _ _ (read_sentinel-IsPlain msg_header "header" c) λ _ c1.
    and_then-IsPlain _ _ (on_error-IsPlain _ (read_full 4 c1) (read_full-IsPlain 4 c1)) λ _ c2.
      and_then-IsPlain _ _ (on_error-IsPlain _ (read_full 32 c2) (read_full-IsPlain 32 c2)) λ _ c3.
        and_then-IsPlain _ _ (on_error-IsPlain _ (read_full 4 c3) (read_full-IsPlain 4 c3)) λ n c4.
          and_then-IsPlain _ _ (on_error-IsPlain _ (read_full _ c4) (read_full-IsPlain _ c4))
            λ _ c5.
              and_then-IsPlain _ _ (on_error-IsPlain _ (read_full 4 c5) (read_full-IsPlain 4 c5))
                λ _ _. tt

pub read_chunk_request-IsPlain : (c : Stream) → IsPlain (read_chunk_request c)
unfolding read_chunk_request
read_chunk_request-IsPlain c =
    and_then-IsPlain _ _ (read_sentinel-IsPlain msg_chunk_request "chunk request" c)
      λ _ d. and_then-IsPlain _ _ (read_full-IsPlain 4 d) λ _ _. tt

pub read_lottery_ticket-IsPlain : (c : Stream) → IsPlain (read_lottery_ticket c)
unfolding read_lottery_ticket
read_lottery_ticket-IsPlain c =
    and_then-IsPlain _ _ (read_sentinel-IsPlain msg_lottery_ticket "lottery ticket" c)
      λ _ d. and_then-IsPlain _ _ (read_full-IsPlain 4 d) λ _ _. tt

pub read_chunk_response-IsPlain :
    (file_id : List ℕ) (c : Stream) → IsPlain (read_chunk_response file_id c)
unfolding read_chunk_response
read_chunk_response-IsPlain file_id c =
    and_then-IsPlain _ _ (read_sentinel-IsPlain msg_chunk_response "chunk response" c) λ _ c1.
      and_then-IsPlain _ _ (read_full-IsPlain 4 c1) λ _ c2.
        and_then-IsPlain _ _ (read_full-IsPlain 4 c2) λ _ c3.
          and_then-IsPlain _ _ (read_full-IsPlain _ c3) λ _ c4.
            and_then-IsPlain _ _ (read_full-IsPlain 12 c4)
              λ _ c5. and_then-IsPlain _ _ (read_full-IsPlain 32 c5) λ _ _. tt

pub read_key_reveal-IsPlain : (c : Stream) → IsPlain (read_key_reveal c)
unfolding read_key_reveal
read_key_reveal-IsPlain c =
    and_then-IsPlain _ _ (read_sentinel-IsPlain msg_key_reveal "key reveal" c) λ _ c1.
      and_then-IsPlain _ _ (read_full-IsPlain 4 c1)
        λ _ c2. and_then-IsPlain _ _ (read_full-IsPlain 32 c2) λ _ _. tt

pub read_root-IsPlain : (c : Stream) → IsPlain (read_root c)
unfolding read_root
read_root-IsPlain c =
    and_then-IsPlain _ _ (read_sentinel-IsPlain msg_merkle_root "merkle root" c)
      λ _ d. read_full-IsPlain 32 d

pub read_final_ack-IsPlain : (c : Stream) → IsPlain (read_final_ack c)
unfolding read_final_ack
read_final_ack-IsPlain c = read_sentinel-IsPlain msg_final_ack "final ack" c
