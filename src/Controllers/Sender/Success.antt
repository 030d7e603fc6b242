-- ===== src/Controllers/Sender/Success.antt =====
-- The steps of the sender where everything that they call succeeds.
use file_transfer_using_libp.Base.{
  ℕ, suc, ◌+◌, ◌-◌, ◌*◌, ◌^◌, ◌≤◌, ◌<◌, ◌≡◌, refl, sym, ap, ◌∙◌, subst, true, false, Option, none,
  some, List, [], ◌∷◌, ◌++◌, take, drop, IsU32, u32, u32, arith, Result, ok, Act, ltb, lt→ltb, ◌==◌,
  ==_refl, if◌then◌else◌, wrap, wrap_at,
}
use file_transfer_using_libp.Base
use file_transfer_using_libp.Protocol.State.{TransferState}
use file_transfer_using_libp.Protocol.Types.{Chunk, chunk_size, key_size, nonce_size}
use file_transfer_using_libp.Protocol.Stream.{Stream}
use file_transfer_using_libp.Protocol.File.{File, on_some_file}
use file_transfer_using_libp.Protocol.Session.{Session}
use file_transfer_using_libp.Wire.{
  encode_chunk_request, encode_lottery_ticket, encode_chunk_response, encode_key_reveal,
  encode_root, encode_final_ack, send_chunk_response, send_key_reveal, send_root,
}
use file_transfer_using_libp.Wire.Reads.{write_accepted}
use file_transfer_using_libp.Wire.Messages.{
  read_chunk_request-encode, read_lottery_ticket-encode, read_final_ack-encode,
}
use file_transfer_using_libp.Crypto.{Crypto, build_and_encrypt_chunk}
use file_transfer_using_libp.Crypto.Chunks.{sealed_chunk, build_and_encrypt_chunk_lem}
use file_transfer_using_libp.Merkle.{generate_leaf, build_tree, root_of_tree}
use file_transfer_using_libp.Controllers.Actions.{read_chunk_plaintext, finish_chunk}
use file_transfer_using_libp.Controllers.Rules.{conn_eq, entropy_eq, file_eq}
use file_transfer_using_libp.Controllers.Sender.{
  step_sender_wait_chunk_request, step_sender_send_chunk_response, step_sender_wait_lottery_ticket,
  step_sender_send_key_reveal, step_sender_verify_merkle, verify_root,
}

-- A connection with those bytes still to come and those already written.
abbrev pub link : Stream → List ℕ → List ℕ → Stream
link c incoming outgoing = record c { incoming = incoming; outgoing = outgoing }

-- A sender's session: what changes in the course of a transfer.
abbrev pub sending :
    Session → File → TransferState → Stream → List ℕ → ℕ → Option Chunk → List (List ℕ) → Session
sending s f st c entropy i pending leaves = record s {
  state = st;
  conn = c;
  chunk_size = chunk_size;
  current_chunk = i;
  file = some f;
  pending_chunk = pending;
  leaves = leaves;
  entropy = entropy;
}

-- The plaintext of chunk `i` of a file.
abbrev pub piece : File → ℕ → List ℕ
piece f i = take chunk_size (drop (chunk_size * i) f.content)

read_chunk_plaintext_lem :
    (i : ℕ) (f : File)
    → f.closed ≡ false
    → f.readable ≡ true
    → IsU32 i
    → read_chunk_plaintext i chunk_size f ≡ (ok (piece f i), f)
unfolding read_chunk_plaintext
read_chunk_plaintext_lem i f open' readable h =
    rw (open', lt→ltb (chunk_size * i) (2 ^ 63) (omega arith), readable)

module _ (C : Crypto) (s : Session) (f : File) (c : Stream)
    (accepts : (o : List ℕ) → c.accepts o ≡ true) where
  pub wait_chunk_request_ok :
      (inc out e : List ℕ) (i : ℕ) (p : Option Chunk) (ls : List (List ℕ))
      → IsU32 i
      → step_sender_wait_chunk_request (
          sending s f TransferState.waiting_chunk_request
            (link c (encode_chunk_request i ++ inc) out)
            e
            i
            p
            ls)
        ≡ (
          ok TransferState.send_chunk_response,
          sending s f TransferState.waiting_chunk_request (link c inc out) e i p ls,
        )
  unfolding step_sender_wait_chunk_request
  wait_chunk_request_ok inc out e i p ls h =
      conn_eq
        (sending s f TransferState.waiting_chunk_request
          (link c (encode_chunk_request i ++ inc) out) e i p ls)
        _ _ _ i (link c inc out) (read_chunk_request-encode i inc (link c inc out) h)
      ∙ rw (==_refl i)

  pub send_chunk_response_ok :
      (inc out key nonce e : List ℕ) (i : ℕ) (p : Option Chunk) (ls : List (List ℕ))
      → IsU32 i
      → f.closed ≡ false
      → f.readable ≡ true
      → Base.length key ≡ key_size
      → Base.length nonce ≡ nonce_size
      → let k = sealed_chunk C key nonce s.file_id i (piece f i) in
        step_sender_send_chunk_response C (
          sending s f TransferState.send_chunk_response
            (link c inc out)
            (key ++ (nonce ++ e))
            i
            p
            ls)
        ≡ (
          ok TransferState.waiting_lottery_ticket,
          sending s f TransferState.send_chunk_response
              (link c inc (out ++ encode_chunk_response k))
              e
              i
              (some k)
              ls,
        )
  unfolding step_sender_send_chunk_response send_chunk_response
  send_chunk_response_ok inc out key nonce e i p ls h open' readable hk hn =
      let k = sealed_chunk C key nonce s.file_id i (piece f i) in
      let s0 =
        sending s f TransferState.send_chunk_response (link c inc out) (key ++ (nonce ++ e)) i p
          ls in
      let s1 = sending s f TransferState.send_chunk_response (link c inc out) e i p ls in
      file_eq s0 _ (on_some_file (read_chunk_plaintext i chunk_size) (some f)) _ (piece f i)
        (some f) (rw (read_chunk_plaintext_lem i f open' readable h))
      ∙ entropy_eq s0 (build_and_encrypt_chunk C s.file_id i (piece f i) (key ++ (nonce ++ e))) _ k
          e (build_and_encrypt_chunk_lem C s.file_id i (piece f i) key nonce e hk hn)
      ∙ conn_eq s1 _ _ _ tt (link c inc (out ++ encode_chunk_response k))
          (write_accepted (encode_chunk_response k) (link c inc out) (accepts out))

  pub wait_lottery_ticket_ok :
      (inc out e : List ℕ) (i : ℕ) (p : Option Chunk) (ls : List (List ℕ))
      → IsU32 i
      → step_sender_wait_lottery_ticket (
          sending s f TransferState.waiting_lottery_ticket
            (link c (encode_lottery_ticket i ++ inc) out)
            e
            i
            p
            ls)
        ≡ (
          ok TransferState.send_key_reveal,
          sending s f TransferState.waiting_lottery_ticket (link c inc out) e i p ls,
        )
  unfolding step_sender_wait_lottery_ticket
  wait_lottery_ticket_ok inc out e i p ls h =
      conn_eq
        (sending s f TransferState.waiting_lottery_ticket
          (link c (encode_lottery_ticket i ++ inc) out) e i p ls)
        _ _ _ i (link c inc out) (read_lottery_ticket-encode i inc (link c inc out) h)
      ∙ rw (==_refl i)

  -- The key goes out, the leaf is kept; then the next chunk begins, or the tree is verified.
  pub send_key_reveal_ok :
      (inc out e : List ℕ) (i : ℕ) (k : Chunk) (ls : List (List ℕ))
      → i + 1 < s.total_chunks
      → IsU32 s.total_chunks
      → step_sender_send_key_reveal C
          (sending s f TransferState.send_key_reveal (link c inc out) e i (some k) ls)
        ≡ (
          ok TransferState.waiting_chunk_request,
          sending s f TransferState.send_key_reveal
              (link c inc (out ++ encode_key_reveal i k.key))
              e
              (i + 1)
              none
              (ls ++ (generate_leaf C k ∷ [])),
        )
  unfolding step_sender_send_key_reveal send_key_reveal finish_chunk
  send_key_reveal_ok inc out e i k ls less fits =
      conn_eq (sending s f TransferState.send_key_reveal (link c inc out) e i (some k) ls) _ _ _ tt
        (link c inc (out ++ encode_key_reveal i k.key))
        (write_accepted (encode_key_reveal i k.key) (link c inc out) (accepts out))
      ∙ ground arith

  pub send_last_key_reveal_ok :
      (inc out e : List ℕ) (i : ℕ) (k : Chunk) (ls : List (List ℕ))
      → i + 1 ≡ s.total_chunks
      → step_sender_send_key_reveal C
          (sending s f TransferState.send_key_reveal (link c inc out) e i (some k) ls)
        ≡ (
          ok TransferState.verify_merkle,
          sending s f TransferState.send_key_reveal
              (link c inc (out ++ encode_key_reveal i k.key))
              e
              i
              none
              (ls ++ (generate_leaf C k ∷ [])),
        )
  unfolding step_sender_send_key_reveal send_key_reveal finish_chunk
  send_last_key_reveal_ok inc out e i k ls last =
      conn_eq (sending s f TransferState.send_key_reveal (link c inc out) e i (some k) ls) _ _ _ tt
        (link c inc (out ++ encode_key_reveal i k.key))
        (write_accepted (encode_key_reveal i k.key) (link c inc out) (accepts out))
      ∙ ground arith

  pub verify_merkle_ok :
      (inc out e root : List ℕ) (i : ℕ) (p : Option Chunk) (ls : List (List ℕ))
      → root_of_tree (build_tree C ls) ≡ ok root
      → step_sender_verify_merkle C
          (sending s f TransferState.verify_merkle (link c (encode_final_ack ++ inc) out) e i p ls)
        ≡ (
          ok TransferState.finished,
          sending s f TransferState.verify_merkle (link c inc (out ++ encode_root root)) e i p ls,
        )
  unfolding step_sender_verify_merkle send_root
  verify_merkle_ok inc out e root i p ls h =
      let s0 =
        sending s f TransferState.verify_merkle (link c (encode_final_ack ++ inc) out) e i p ls in
      ap (λ r. verify_root r s0) h
      ∙ conn_eq s0 _ _ _ tt (link c (encode_final_ack ++ inc) (out ++ encode_root root))
          (write_accepted (encode_root root) (link c (encode_final_ack ++ inc) out) (accepts out))
      ∙ conn_eq
          (sending s f TransferState.verify_merkle
            (link c (encode_final_ack ++ inc) (out ++ encode_root root)) e i p ls)
          _ _ _ tt (link c inc (out ++ encode_root root))
          (read_final_ack-encode inc (link c inc (out ++ encode_root root)))
