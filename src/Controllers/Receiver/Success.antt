-- ===== src/Controllers/Receiver/Success.antt =====
-- The steps of the receiver where everything that they call succeeds.
use file_transfer_using_libp.Base.{
  ℕ, suc, ◌+◌, ◌-◌, ◌*◌, ◌^◌, ◌≤◌, ◌<◌, ◌≡◌, refl, sym, ap, ◌∙◌, subst, true, false, Option, none,
  some, List, [], ◌∷◌, ◌++◌, IsU32, u32, arith, Result, ok, Act, le→leb, leb, ◌==◌, ==_refl,
  if◌then◌else◌, list_eq, list_eq_refl, wrap, wrap_at, and_then,
}
use file_transfer_using_libp.Base
use file_transfer_using_libp.Protocol.State.{TransferState}
use file_transfer_using_libp.Protocol.Types.{Chunk, key_size, nonce_size, hash_size}
use file_transfer_using_libp.Protocol.Stream.{Stream}
use file_transfer_using_libp.Protocol.File.{File, write_file, close_file, on_some_file}
use file_transfer_using_libp.Protocol.Session.{Session}
use file_transfer_using_libp.Wire.{
  encode_chunk_request, encode_lottery_ticket, encode_chunk_response, encode_key_reveal,
  encode_root, encode_final_ack, send_chunk_request, send_lottery_ticket, send_final_ack,
  read_chunk_response,
}
use file_transfer_using_libp.Wire.Reads.{write_accepted}
use file_transfer_using_libp.Wire.Messages.{read_key_reveal-encode, read_root-encode}
use file_transfer_using_libp.Wire.Response.{IsWireChunk, received_chunk, read_chunk_response-encode}
use file_transfer_using_libp.Crypto.{Crypto, IsLawful, decrypt_and_check}
use file_transfer_using_libp.Crypto.Chunks.{sealed_chunk, decrypt_and_check_accepts}
use file_transfer_using_libp.Merkle.{generate_leaf, build_tree, root_of_tree}
use file_transfer_using_libp.Controllers.Actions.{finish_chunk, and_close}
use file_transfer_using_libp.Controllers.Rules.{conn_eq, file_eq, pending_eq}
use file_transfer_using_libp.Controllers.Sender.Success.{link}
use file_transfer_using_libp.Controllers.Receiver.{
  step_receiver_send_chunk_request, step_receiver_wait_chunk_response,
  step_receiver_send_lottery_ticket, step_receiver_wait_key_reveal, step_receiver_verify_chunk,
  step_receiver_verify_merkle, check_root,
}

-- A receiver's session: what changes in the course of a transfer.
abbrev pub receiving :
    Session → File → TransferState → Stream → ℕ → Option Chunk → List (List ℕ) → Session
receiving s f st c i pending leaves = record s {
  state = st;
  conn = c;
  current_chunk = i;
  file = some f;
  pending_chunk = pending;
  leaves = leaves;
}

-- A file after a write of what it has room for.
abbrev pub written : File → List ℕ → File
written f buf = record f { content = f.content ++ buf; room = f.room - Base.length buf }

write_file_lem :
    (buf : List ℕ) (f : File)
    → f.closed ≡ false
    → Base.length buf ≤ f.room
    → write_file buf f ≡ (ok tt, written f buf)
unfolding write_file
write_file_lem buf f open' h = rw (open', le→leb (Base.length buf) f.room h)

module _ (C : Crypto) (s : Session) (c : Stream) (accepts : (o : List ℕ) → c.accepts o ≡ true) where
  pub send_chunk_request_ok :
      (f : File) (inc out : List ℕ) (i : ℕ) (p : Option Chunk) (ls : List (List ℕ))
      → step_receiver_send_chunk_request
          (receiving s f TransferState.send_chunk_request (link c inc out) i p ls)
        ≡ (
          ok TransferState.waiting_chunk_response,
          receiving s f TransferState.send_chunk_request
              (link c inc (out ++ encode_chunk_request i))
              i
              p
              ls,
        )
  unfolding step_receiver_send_chunk_request send_chunk_request
  send_chunk_request_ok f inc out i p ls =
      conn_eq (receiving s f TransferState.send_chunk_request (link c inc out) i p ls) _ _ _ tt
        (link c inc (out ++ encode_chunk_request i))
        (write_accepted (encode_chunk_request i) (link c inc out) (accepts out))

  pub wait_chunk_response_ok :
      (f : File) (inc out : List ℕ) (i : ℕ) (p : Option Chunk) (ls : List (List ℕ)) (k : Chunk)
      → IsWireChunk k
      → k.index ≡ i
      → step_receiver_wait_chunk_response (
          receiving s f TransferState.waiting_chunk_response
            (link c (encode_chunk_response k ++ inc) out)
            i
            p
            ls)
        ≡ (
          ok TransferState.send_lottery_ticket,
          receiving s f TransferState.waiting_chunk_response
              (link c inc out)
              i
              (some (received_chunk s.file_id k))
              ls,
        )
  unfolding step_receiver_wait_chunk_response
  wait_chunk_response_ok f inc out i p ls k w same =
      conn_eq
        (receiving s f TransferState.waiting_chunk_response
          (link c (encode_chunk_response k ++ inc) out) i p ls)
        _ (read_chunk_response s.file_id (link c (encode_chunk_response k ++ inc) out)) _
        (received_chunk s.file_id k) (link c inc out)
        (read_chunk_response-encode s.file_id k inc (link c inc out) w)
      ∙ unfold received_chunk in rw same (rw (==_refl i))

  pub send_lottery_ticket_ok :
      (f : File) (inc out : List ℕ) (i : ℕ) (p : Option Chunk) (ls : List (List ℕ))
      → step_receiver_send_lottery_ticket
          (receiving s f TransferState.send_lottery_ticket (link c inc out) i p ls)
        ≡ (
          ok TransferState.waiting_key_reveal,
          receiving s f TransferState.send_lottery_ticket
              (link c inc (out ++ encode_lottery_ticket i))
              i
              p
              ls,
        )
  unfolding step_receiver_send_lottery_ticket send_lottery_ticket
  send_lottery_ticket_ok f inc out i p ls =
      conn_eq (receiving s f TransferState.send_lottery_ticket (link c inc out) i p ls) _ _ _ tt
        (link c inc (out ++ encode_lottery_ticket i))
        (write_accepted (encode_lottery_ticket i) (link c inc out) (accepts out))

  pub wait_key_reveal_ok :
      (f : File) (inc out key : List ℕ) (i : ℕ) (d : Chunk) (ls : List (List ℕ))
      → IsU32 i
      → Base.length key ≡ key_size
      → step_receiver_wait_key_reveal (
          receiving s f TransferState.waiting_key_reveal
            (link c (encode_key_reveal i key ++ inc) out)
            i
            (some d)
            ls)
        ≡ (
          ok TransferState.verify_chunk,
          receiving s f TransferState.waiting_key_reveal
              (link c inc out)
              i
              (some (record d { key = key }))
              ls,
        )
  unfolding step_receiver_wait_key_reveal
  wait_key_reveal_ok f inc out key i d ls h l =
      conn_eq
        (receiving s f TransferState.waiting_key_reveal
          (link c (encode_key_reveal i key ++ inc) out) i (some d) ls)
        _ _ _ (i, key) (link c inc out) (read_key_reveal-encode i key inc (link c inc out) h l)
      ∙ rw (==_refl i)

  -- The chunk of an honest sender is verified and written; then the next chunk begins, or the tree
  -- is verified.
  module _ (law : IsLawful C) (f : File) (key nonce plaintext : List ℕ) (i : ℕ)
      (hk : Base.length key ≡ key_size) (hn : Base.length nonce ≡ nonce_size)
      (open' : f.closed ≡ false) (fits : Base.length plaintext ≤ f.room) where
    abbrev sealed : Chunk
    sealed = sealed_chunk C key nonce s.file_id i plaintext

    abbrev revealed : Chunk
    revealed = record (received_chunk s.file_id sealed) { key = key }

    stored :
        (cn : Stream) (ls : List (List ℕ))
        → step_receiver_verify_chunk C
            (receiving s f TransferState.verify_chunk cn i (some revealed) ls)
          ≡ finish_chunk TransferState.send_chunk_request (
              receiving s
                (written f plaintext)
                TransferState.verify_chunk
                cn
                i
                (some (record revealed { plaintext = plaintext; leaf = generate_leaf C sealed }))
                (ls ++ (generate_leaf C sealed ∷ [])))
    unfolding step_receiver_verify_chunk sealed_chunk received_chunk generate_leaf
    stored cn ls =
        pending_eq (receiving s f TransferState.verify_chunk cn i (some revealed) ls)
          (decrypt_and_check C revealed) _ plaintext (record revealed { plaintext = plaintext })
          (decrypt_and_check_accepts C revealed plaintext hk hn
            (law.gcm_open-gcm_seal key nonce plaintext hk hn) refl)
        ∙ file_eq
            (receiving s f TransferState.verify_chunk cn i
              (some (record revealed { plaintext = plaintext; leaf = generate_leaf C sealed }))
              (ls ++ (generate_leaf C sealed ∷ [])))
            _ (on_some_file (write_file plaintext) (some f)) _ tt (some (written f plaintext))
            (rw (write_file_lem plaintext f open' fits))

    pub verify_chunk_ok :
        (cn : Stream) (ls : List (List ℕ))
        → i + 1 < s.total_chunks
        → IsU32 s.total_chunks
        → step_receiver_verify_chunk C
            (receiving s f TransferState.verify_chunk cn i (some revealed) ls)
          ≡ (
            ok TransferState.send_chunk_request,
            receiving s
                (written f plaintext)
                TransferState.verify_chunk
                cn
                (i + 1)
                none
                (ls ++ (generate_leaf C sealed ∷ [])),
          )
    verify_chunk_ok cn ls less fits' = stored cn ls ∙ unfold finish_chunk in ground arith

    pub verify_last_chunk_ok :
        (cn : Stream) (ls : List (List ℕ))
        → i + 1 ≡ s.total_chunks
        → step_receiver_verify_chunk C
            (receiving s f TransferState.verify_chunk cn i (some revealed) ls)
          ≡ (
            ok TransferState.verify_merkle,
            receiving s
                (written f plaintext)
                TransferState.verify_chunk
                cn
                i
                none
                (ls ++ (generate_leaf C sealed ∷ [])),
          )
    verify_last_chunk_ok cn ls last = stored cn ls ∙ unfold finish_chunk in ground arith

  pub verify_merkle_ok :
      (f : File) (inc out root : List ℕ) (i : ℕ) (p : Option Chunk) (ls : List (List ℕ))
      → root_of_tree (build_tree C ls) ≡ ok root
      → Base.length root ≡ hash_size
      → step_receiver_verify_merkle C
          (receiving s f TransferState.verify_merkle (link c (encode_root root ++ inc) out) i p ls)
        ≡ (
          ok TransferState.finished,
          receiving s
              (close_file f).1
              TransferState.verify_merkle
              (link c inc (out ++ encode_final_ack))
              i
              p
              ls,
        )
  unfolding step_receiver_verify_merkle send_final_ack
  verify_merkle_ok f inc out root i p ls h l =
      let s0 =
        receiving s f TransferState.verify_merkle (link c (encode_root root ++ inc) out) i p ls in
      let s1 = receiving s f TransferState.verify_merkle (link c inc out) i p ls in
      let s2 =
        receiving s f TransferState.verify_merkle (link c inc (out ++ encode_final_ack)) i p ls in
      let checked : check_root (ok root) root s1 ≡ (ok TransferState.finished, s2) =
        rw (list_eq_refl root) (
          conn_eq s1 _ _ _ tt (link c inc (out ++ encode_final_ack))
            (write_accepted encode_final_ack (link c inc out) (accepts out))) in
      ap and_close (
        conn_eq s0 _ _ _ root (link c inc out) (read_root-encode root inc (link c inc out) l)
        ∙ ap (λ r. check_root r root s1) h
        ∙ checked)
