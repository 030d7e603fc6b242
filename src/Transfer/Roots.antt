-- ===== src/Transfer/Roots.antt =====
-- The last turns of a transfer: the key of the last chunk, the roots and the acknowledgement.
use file_transfer_using_libp.Base.{
  ℕ, suc, ◌+◌, ◌-◌, ◌*◌, ◌^◌, ◌≤◌, ◌<◌, ◌≡◌, refl, sym, ap, ◌∙◌, subst, true, false, Option, none,
  some, List, [], ◌∷◌, ◌++◌, append_assoc, append-nil, All, IsU32, arith, Result, ok, err, Error,
  eof, wrap, min,
}
use file_transfer_using_libp.Base
use file_transfer_using_libp.Protocol.State.{TransferState, is_allowed}
use file_transfer_using_libp.Protocol.Types.{Chunk, chunk_size, key_size, nonce_size, hash_size}
use file_transfer_using_libp.Protocol.Stream.{Stream, read_full}
use file_transfer_using_libp.Protocol.File.{File, close_file}
use file_transfer_using_libp.Protocol.Session.{Session}
use file_transfer_using_libp.Wire.{
  encode_key_reveal, encode_root, encode_final_ack, send_root, read_final_ack, read_sentinel,
}
use file_transfer_using_libp.Wire.Reads.{write_accepted}
use file_transfer_using_libp.Wire.Response.{received_chunk}
use file_transfer_using_libp.Crypto.{Crypto, IsLawful}
use file_transfer_using_libp.Crypto.Chunks.{sealed_chunk}
use file_transfer_using_libp.Merkle.{generate_leaf, build_tree, root_of_tree}
use file_transfer_using_libp.Controllers.Rules.{conn_eq}
use file_transfer_using_libp.Controllers.Sender.{
  sender_steps, step_sender_verify_merkle, verify_root,
}
use file_transfer_using_libp.Controllers.Sender.Success as Sends
use file_transfer_using_libp.Controllers.Sender.Success.{link, sending}
use file_transfer_using_libp.Controllers.Receiver.{receiver_steps}
use file_transfer_using_libp.Controllers.Receiver.Success as Receives
use file_transfer_using_libp.Controllers.Receiver.Success.{receiving, written}
use file_transfer_using_libp.Transfer.{slice}
use file_transfer_using_libp.Transfer.Receiving.{length-slice}
use file_transfer_using_libp.Transfer.Turns.{System, party, root_cause}
use file_transfer_using_libp.Transfer.Parties.{
  Quiet, OneTurn, one_round, one_wait, wait-Quiet, finished-Quiet,
}
use file_transfer_using_libp.Transfer.Inevitable.{
  Inevitable, reached, together, sender_goes, receiver_goes, either_goes,
}
use file_transfer_using_libp.Transfer.Waiting.{root-Quiet}

-- Both sessions are finished, there is nothing left to read, and the receiver has that file.
pub record IsEnd (b : System) (g : File) : Type 0 where
  pub sender_finished : b.sender.session.state ≡ TransferState.finished
  pub receiver_finished : b.receiver.session.state ≡ TransferState.finished
  pub sender_has_read : b.sender.session.conn.incoming ≡ []
  pub receiver_has_read : b.receiver.session.conn.incoming ≡ []
  pub has_file : b.receiver.session.file ≡ some g

module _ (C : Crypto) (law : IsLawful C) (s r' : Session) (f : File) (c d : Stream)
    (sends : (o : List ℕ) → c.accepts o ≡ true) (answers : (o : List ℕ) → d.accepts o ≡ true)
    (open' : f.closed ≡ false) (readable : f.readable ≡ true) where
  -- The receiver's session, with what it has from the header.
  abbrev pub with_header : Session
  with_header = record r' { file_id = s.file_id; total_chunks = s.total_chunks }

  -- The sender has written its root, and waits for the acknowledgement.
  root_then_waits :
      (out e root : List ℕ) (i : ℕ) (p : Option Chunk) (ls : List (List ℕ))
      → root_of_tree (build_tree C ls) ≡ ok root
      → step_sender_verify_merkle C
          (sending s f TransferState.verify_merkle (link c [] out) e i p ls)
        ≡ (
          err (wrap "waiting for final ack" (wrap "final ack" c.ending)),
          sending s f TransferState.verify_merkle (link c [] (out ++ encode_root root)) e i p ls,
        )
  unfolding step_sender_verify_merkle send_root read_final_ack read_sentinel read_full
  root_then_waits out e root i p ls h =
      let s0 = sending s f TransferState.verify_merkle (link c [] out) e i p ls in
      ap (λ r. verify_root r s0) h
      ∙ conn_eq s0 _ _ _ tt (link c [] (out ++ encode_root root))
          (write_accepted (encode_root root) (link c [] out) (sends out))
      ∙ refl

  -- The end, with that file closed at the receiver.
  abbrev pub Ends : System → File → Type 0
  Ends a g = Inevitable C (λ b. IsEnd b (close_file g).1) a

  module _ (g : File) (out out' e root key nonce : List ℕ) (i : ℕ) (p : Option Chunk)
      (ls : List (List ℕ)) (ends : c.ending ≡ eof) (fits : IsU32 i)
      (hk : Base.length key ≡ key_size) (hn : Base.length nonce ≡ nonce_size)
      (open_g : g.closed ≡ false) (room : Base.length f.content - chunk_size * i ≤ g.room)
      (last : i + 1 ≡ s.total_chunks) where
    abbrev k : Chunk
    k = sealed_chunk C key nonce s.file_id i (slice f.content i)

    abbrev ls' : List (List ℕ)
    ls' = ls ++ (generate_leaf C k ∷ [])

    abbrev after : File
    after = written g (slice f.content i)

    -- The root, and the sender to which those bytes have come.
    abbrev said : List ℕ
    said = encode_root root

    abbrev with_root : List ℕ → Session
    with_root inc = sending s f TransferState.verify_merkle (link c inc out) e i p ls'

    -- The receiver in the last states, with those bytes to read.
    abbrev at_key : List ℕ → Session
    at_key inc =
        receiving with_header g TransferState.waiting_key_reveal (link d inc out') i
          (some (received_chunk s.file_id k)) ls

    abbrev at_chunk : List ℕ → Session
    at_chunk inc =
        receiving with_header g TransferState.verify_chunk (link d inc out') i
          (some (record (received_chunk s.file_id k) { key = key })) ls

    abbrev at_root : List ℕ → Session
    at_root inc =
        receiving with_header after TransferState.verify_merkle (link d inc out') i none ls'

    module _ (h : root_of_tree (build_tree C ls') ≡ ok root)
        (l : Base.length root ≡ hash_size) where
      says_root :
          OneTurn (sender_steps C) (party (with_root []) []) (party (with_root []) said) said
      unfolding sender_steps
      says_root =
          one_wait (sender_steps C) (with_root []) [] TransferState.verify_merkle _ refl tt refl _ _
            said (root_then_waits out e root i p ls' h) (ap root_cause ends) refl

      waits_for_ack : Quiet (sender_steps C) (party (with_root []) said)
      unfolding sender_steps
      waits_for_ack =
          wait-Quiet (sender_steps C) (with_root []) said TransferState.verify_merkle _ refl tt refl
            _ _ (root_then_waits out e root i p ls' h) refl

      takes_key :
          (inc : List ℕ)
          → OneTurn
              (receiver_steps C)
              (party (at_key (encode_key_reveal i key ++ inc)) [])
              (party (at_chunk inc) [])
              []
      unfolding receiver_steps is_allowed
      takes_key inc =
          one_round (receiver_steps C) (at_key (encode_key_reveal i key ++ inc)) []
            TransferState.waiting_key_reveal _ refl tt refl _ TransferState.verify_chunk []
            (Receives.wait_key_reveal_ok C with_header d answers g inc out' key i
              (received_chunk s.file_id k) ls fits hk)
            refl refl (sym (append-nil out'))

      takes_chunk :
          (inc : List ℕ)
          → OneTurn (receiver_steps C) (party (at_chunk inc) []) (party (at_root inc) []) []
      unfolding receiver_steps is_allowed
      takes_chunk inc =
          one_round (receiver_steps C) (at_chunk inc) [] TransferState.verify_chunk _ refl tt refl _
            TransferState.verify_merkle []
            (Receives.verify_last_chunk_ok C with_header d answers law g key nonce
              (slice f.content i) i hk hn open_g (omega (arith, length-slice f.content i))
              (link d inc out') ls last)
            refl refl (sym (append-nil out'))

      -- The root has come, and the receiver compares it.
      compares : Ends (together (party (with_root []) said) (party (at_root (said ++ [])) [])) after
      unfolding sender_steps receiver_steps is_allowed
      compares =
          receiver_goes C _ _ _ _ encode_final_ack (encode_final_ack ++ []) waits_for_ack
            (one_round (receiver_steps C) (at_root (said ++ [])) [] TransferState.verify_merkle _
              refl tt refl _ TransferState.finished encode_final_ack
              (Receives.verify_merkle_ok C with_header d answers after [] out' root i none ls' h l)
              refl refl refl)
            (append-nil encode_final_ack)
            (sender_goes C _ _ _ _ [] []
              (one_round (sender_steps C) (with_root (encode_final_ack ++ [])) said
                TransferState.verify_merkle _ refl tt refl _ TransferState.finished []
                (Sends.verify_merkle_ok C s f c sends [] out e root i p ls' h) refl refl
                (ap (λ xs. out ++ xs) (sym (append-nil said))))
              (finished-Quiet (receiver_steps C) _ [] refl) refl
              (reached _ (record {
                sender_finished = refl;
                receiver_finished = refl;
                sender_has_read = refl;
                receiver_has_read = refl;
                has_file = refl;
              })))

      -- The root has come, and the last chunk is not verified yet.
      then_compares :
          Ends (together (party (with_root []) said) (party (at_chunk (said ++ [])) [])) after
      then_compares =
          receiver_goes C _ _ _ _ [] [] waits_for_ack (takes_chunk (said ++ [])) refl compares

      no_root_yet : Ends (together (party (with_root []) []) (party (at_root []) [])) after
      no_root_yet =
          sender_goes C _ _ _ _ said (said ++ []) says_root
            (root-Quiet C with_header after d out' i none ls') (append-nil said) compares

      no_chunk_yet : Ends (together (party (with_root []) []) (party (at_chunk []) [])) after
      no_chunk_yet =
          either_goes C _ _ _ _ _ said [] (said ++ []) [] says_root (takes_chunk [])
            (append-nil said) refl then_compares no_root_yet

      -- The key of the last chunk has come: the sender may say its root before or after the receiver
      -- takes the key and verifies the chunk.
      pub last_turns :
          Ends
            (together (party (with_root []) []) (party (at_key (encode_key_reveal i key ++ [])) []))
            after
      last_turns =
          either_goes C _ _ _ _ _ said [] (encode_key_reveal i key ++ (said ++ [])) [] says_root
            (takes_key [])
            (ap (λ xs. encode_key_reveal i key ++ xs) (append-nil said)
              ∙ ap (λ xs. xs ++ said) (sym (append-nil (encode_key_reveal i key))))
            refl
            (receiver_goes C _ _ _ _ [] [] waits_for_ack (takes_key (said ++ [])) refl
              then_compares)
            no_chunk_yet
