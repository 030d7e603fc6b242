-- ===== src/Transfer/Liveness.antt =====
-- The chunks of a transfer, where the sender and the receiver take turns: `Run` of the steps of
-- Controllers/controllers.go on both ends of a connection.
use file_transfer_using_libp.Base.{
  ℕ, suc, ◌+◌, ◌-◌, ◌*◌, ◌^◌, ◌≤◌, ◌<◌, ◌≡◌, refl, sym, ap, ◌∙◌, subst, true, false, Option, none,
  some, List, [], ◌∷◌, ◌++◌, append_assoc, append-nil, All, IsU32, arith, Result, ok, err, Error,
  eof, wrap, min,
}
use file_transfer_using_libp.Base
use file_transfer_using_libp.Protocol.State.{TransferState, is_allowed}
use file_transfer_using_libp.Protocol.Types.{Chunk, chunk_size, key_size, nonce_size, hash_size}
use file_transfer_using_libp.Protocol.Stream.{Stream}
use file_transfer_using_libp.Protocol.File.{File}
use file_transfer_using_libp.Protocol.Session.{Session}
use file_transfer_using_libp.Wire.{
  encode_chunk_request, encode_lottery_ticket, encode_chunk_response, encode_key_reveal,
}
use file_transfer_using_libp.Wire.Response.{received_chunk}
use file_transfer_using_libp.Crypto.{Crypto, IsLawful}
use file_transfer_using_libp.Crypto.Chunks.{sealed_chunk}
use file_transfer_using_libp.Merkle.{generate_leaf, build_tree, root_of_tree}
use file_transfer_using_libp.Controllers.Sender.{sender_steps}
use file_transfer_using_libp.Controllers.Sender.Success as Sends
use file_transfer_using_libp.Controllers.Sender.Success.{link, sending}
use file_transfer_using_libp.Controllers.Receiver.{receiver_steps}
use file_transfer_using_libp.Controllers.Receiver.Success as Receives
use file_transfer_using_libp.Controllers.Receiver.Success.{receiving, written}
use file_transfer_using_libp.Transfer.{Secrets, IsSecret, slice, chunks_from, with_leaves, drawn}
use file_transfer_using_libp.Transfer.Receiving.{sealed-IsWireChunk, length-slice, filled}
use file_transfer_using_libp.Transfer.Turns.{System}
use file_transfer_using_libp.Transfer.Inevitable.{
  Inevitable, pair_up, sender_steps_on, receiver_steps_on,
}
use file_transfer_using_libp.Transfer.Waiting.{
  chunk_request-Quiet, lottery_ticket-Quiet, chunk_response-Quiet, key_reveal-Quiet,
}
use file_transfer_using_libp.Transfer.Roots.{with_header, Ends, last_turns}

module _ (C : Crypto) (law : IsLawful C) (s r' : Session) (f : File) (c d : Stream)
    (sends : (o : List ℕ) → c.accepts o ≡ true) (answers : (o : List ℕ) → d.accepts o ≡ true)
    (open' : f.closed ≡ false) (readable : f.readable ≡ true) where
  abbrev r : Session
  r = with_header C law s r' f c d sends answers open' readable

  -- The turns of one chunk up to the reveal of the key.
  three_exchanges :
      (P : System → Type 0) (g : File) (out out' key nonce e : List ℕ) (i : ℕ) (p p' : Option Chunk)
      (ls ls' : List (List ℕ))
      → IsU32 i
      → Base.length key ≡ key_size
      → Base.length nonce ≡ nonce_size
      → let k = sealed_chunk C key nonce s.file_id i (slice f.content i) in
        Inevitable C P (
          pair_up
            (sending s f TransferState.send_key_reveal
              (link c [] (out ++ encode_chunk_response k))
              e
              i
              (some k)
              ls)
            (receiving r g TransferState.waiting_key_reveal
              (link d [] ((out' ++ encode_chunk_request i) ++ encode_lottery_ticket i))
              i
              (some (received_chunk s.file_id k))
              ls'))
        → Inevitable C P (
            pair_up
              (sending s f TransferState.waiting_chunk_request
                (link c [] out)
                (key ++ (nonce ++ e))
                i
                p
                ls)
              (receiving r g TransferState.send_chunk_request (link d [] out') i p' ls'))
  unfolding sender_steps receiver_steps is_allowed
  three_exchanges P g out out' key nonce e i p p' ls ls' h hk hn rest =
      let k = sealed_chunk C key nonce s.file_id i (slice f.content i) in
      let wire =
        sealed-IsWireChunk C key nonce s.file_id (slice f.content i) i law h hk hn
          (omega (arith, length-slice f.content i)) in
      let req = encode_chunk_request i in
      let resp = encode_chunk_response k in
      let ticket = encode_lottery_ticket i in
      let out1' = out' ++ req in
      let ks = key ++ (nonce ++ e) in
      let has = some (received_chunk s.file_id k) in
      receiver_steps_on C P _ req (req ++ []) (append-nil req) _ _ TransferState.send_chunk_request
        TransferState.waiting_chunk_response _ refl tt (chunk_request-Quiet C s f c out ks i p ls)
        refl (Receives.send_chunk_request_ok C r d answers g [] out' i p' ls') refl refl refl
        (sender_steps_on C P _ [] [] refl _ _ TransferState.waiting_chunk_request
          TransferState.send_chunk_response _ refl tt (chunk_response-Quiet C r g d out1' i p' ls')
          refl (Sends.wait_chunk_request_ok C s f c sends [] out ks i p ls h) refl refl
          (sym (append-nil out))
          (sender_steps_on C P _ resp (resp ++ []) (append-nil resp) _ _
            TransferState.send_chunk_response TransferState.waiting_lottery_ticket _ refl tt
            (chunk_response-Quiet C r g d out1' i p' ls') refl
            (Sends.send_chunk_response_ok C s f c sends [] out key nonce e i p ls h open' readable
              hk hn)
            refl refl refl
            (receiver_steps_on C P _ [] [] refl _ _ TransferState.waiting_chunk_response
              TransferState.send_lottery_ticket _ refl tt
              (lottery_ticket-Quiet C s f c (out ++ resp) e i (some k) ls) refl
              (Receives.wait_chunk_response_ok C r d answers g [] out1' i p' ls' k wire
                (unfold sealed_chunk in refl))
              refl refl (sym (append-nil out1'))
              (receiver_steps_on C P _ ticket (ticket ++ []) (append-nil ticket) _ _
                TransferState.send_lottery_ticket TransferState.waiting_key_reveal _ refl tt
                (lottery_ticket-Quiet C s f c (out ++ resp) e i (some k) ls) refl
                (Receives.send_lottery_ticket_ok C r d answers g [] out1' i has ls') refl refl refl
                (sender_steps_on C P _ [] [] refl _ _ TransferState.waiting_lottery_ticket
                  TransferState.send_key_reveal _ refl tt
                  (key_reveal-Quiet C r g d (out1' ++ ticket) i has ls') refl
                  (Sends.wait_lottery_ticket_ok C s f c sends [] (out ++ resp) e i (some k) ls h)
                  refl refl (sym (append-nil (out ++ resp))) rest)))))

  -- From the request of chunk `i` on, every order of turns comes to the end.
  pub every_chunk-Ends :
      (rest : Secrets) (g : File) (out out' key nonce e root : List ℕ) (i : ℕ) (p p' : Option Chunk)
      (ls : List (List ℕ))
      → i + 1 + Base.length rest ≡ s.total_chunks
      → IsU32 s.total_chunks
      → IsSecret (key, nonce)
      → All IsSecret rest
      → c.ending ≡ eof
      → g.closed ≡ false
      → Base.length f.content - chunk_size * i ≤ g.room
      → Base.length root ≡ hash_size
      → let ks = chunks_from C s.file_id f.content i ((key, nonce) ∷ rest) in
        root_of_tree (build_tree C (with_leaves C ls ks)) ≡ ok root
        → Ends C law s r' f c d sends answers open' readable
            (pair_up
              (sending s f TransferState.waiting_chunk_request
                (link c [] out)
                (drawn ((key, nonce) ∷ rest) e)
                i
                p
                ls)
              (receiving r g TransferState.send_chunk_request (link d [] out') i p' ls))
            (filled g ks)
  unfolding sender_steps receiver_steps is_allowed sealed_chunk
  every_chunk-Ends [] g out out' key nonce e root i p p' ls last fits (hk, hn) hs ends open_g room
        hr h =
      let k = sealed_chunk C key nonce s.file_id i (slice f.content i) in
      let reveal = encode_key_reveal i key in
      let out1 = out ++ encode_chunk_response k in
      let out2' = (out' ++ encode_chunk_request i) ++ encode_lottery_ticket i in
      three_exchanges _ g out out' key nonce e i p p' ls ls (omega arith) hk hn (
        sender_steps_on C _ _ reveal (reveal ++ []) (append-nil reveal) _ _
          TransferState.send_key_reveal TransferState.verify_merkle _ refl tt
          (key_reveal-Quiet C r g d out2' i (some (received_chunk s.file_id k)) ls) refl
          (Sends.send_last_key_reveal_ok C s f c sends [] out1 e i k ls (omega arith)) refl refl
          refl
          (last_turns C law s r' f c d sends answers open' readable g (out1 ++ reveal) out2' e root
            key nonce i none ls ends (omega arith) hk hn open_g room (omega arith) h hr))
  every_chunk-Ends ((key', nonce') ∷ rest) g out out' key nonce e root i p p' ls more fits (hk, hn)
        (hs, hrs) ends open_g room hr h =
      let x = slice f.content i in
      let k = sealed_chunk C key nonce s.file_id i x in
      let ls' = ls ++ (generate_leaf C k ∷ []) in
      let reveal = encode_key_reveal i key in
      let out1 = out ++ encode_chunk_response k in
      let out2' = (out' ++ encode_chunk_request i) ++ encode_lottery_ticket i in
      let es = drawn ((key', nonce') ∷ rest) e in
      let quiet = chunk_request-Quiet C s f c (out1 ++ reveal) es (i + 1) none ls' in
      three_exchanges _ g out out' key nonce es i p p' ls ls (omega arith) hk hn (
        sender_steps_on C _ _ reveal (reveal ++ []) (append-nil reveal) _ _
          TransferState.send_key_reveal TransferState.waiting_chunk_request _ refl tt
          (key_reveal-Quiet C r g d out2' i (some (received_chunk s.file_id k)) ls) refl
          (Sends.send_key_reveal_ok C s f c sends [] out1 es i k ls (omega arith) fits) refl refl
          refl
          (receiver_steps_on C _ _ [] [] refl _ _ TransferState.waiting_key_reveal
            TransferState.verify_chunk _ refl tt quiet refl
            (Receives.wait_key_reveal_ok C r d answers g [] out2' key i (received_chunk s.file_id k)
              ls (omega arith) hk)
            refl refl (sym (append-nil out2'))
            (receiver_steps_on C _ _ [] [] refl _ _ TransferState.verify_chunk
              TransferState.send_chunk_request _ refl tt quiet refl
              (Receives.verify_chunk_ok C r d answers law g key nonce x i hk hn open_g
                (omega (arith, length-slice f.content i)) (link d [] out2') ls (omega arith) fits)
              refl refl (sym (append-nil out2'))
              (every_chunk-Ends rest (written g x) (out1 ++ reveal) out2' key' nonce' e root (i + 1)
                none none ls' (omega arith) fits hs hrs ends open_g
                (omega (arith, length-slice f.content i)) hr h))))
