-- ===== src/Transfer/Sending.antt =====
-- The sender's side of a whole transfer.
use file_transfer_using_libp.Base.{
  ℕ, suc, ◌+◌, ◌-◌, ◌*◌, ◌^◌, ◌≤◌, ◌<◌, ◌≡◌, refl, sym, ap, ap₂, ◌∙◌, subst, true, false, Option,
  none, some, List, [], ◌∷◌, ◌++◌, append_assoc, take, drop, drop-drop, All, IsU32, arith, Result,
  ok,
}
use file_transfer_using_libp.Base
use file_transfer_using_libp.Protocol.State.{TransferState, is_allowed}
use file_transfer_using_libp.Protocol.Types.{Chunk, key_size, nonce_size}
use file_transfer_using_libp.Protocol.Stream.{Stream}
use file_transfer_using_libp.Protocol.File.{File}
use file_transfer_using_libp.Protocol.Session.{Session}
use file_transfer_using_libp.Protocol.Fsm.{run}
use file_transfer_using_libp.Protocol.Progress.{run_step, run_finished}
use file_transfer_using_libp.Wire.{
  encode_chunk_request, encode_lottery_ticket, encode_chunk_response, encode_key_reveal,
  encode_root, encode_final_ack,
}
use file_transfer_using_libp.Crypto.{Crypto}
use file_transfer_using_libp.Crypto.Chunks.{sealed_chunk}
use file_transfer_using_libp.Merkle.{generate_leaf, build_tree, root_of_tree}
use file_transfer_using_libp.Controllers.Sender.{sender_steps}
use file_transfer_using_libp.Controllers.Sender.Success.{
  link, sending, piece, wait_chunk_request_ok, send_chunk_response_ok, wait_lottery_ticket_ok,
  send_key_reveal_ok, send_last_key_reveal_ok, verify_merkle_ok,
}
use file_transfer_using_libp.Transfer.{
  Secrets, IsSecret, drawn, chunks_from, sender_says, receiver_says, with_leaves,
}

-- What was written in turn, bracketed to the right.
pub regroup : (xs ys zs us : List ℕ) → ((xs ++ ys) ++ zs) ++ us ≡ xs ++ (ys ++ (zs ++ us))
regroup xs ys zs us = append_assoc (xs ++ ys) zs us ∙ append_assoc xs ys (zs ++ us)

-- Six rounds for the last chunk with the tree and the end, four for every other.
abbrev pub sender_rounds : Secrets → ℕ
sender_rounds [] = suc (suc (suc (suc (suc (suc 0)))))
sender_rounds (_ ∷ rest) = suc (suc (suc (suc (sender_rounds rest))))

module _ (C : Crypto) (s : Session) (f : File) (c : Stream)
    (accepts : (o : List ℕ) → c.accepts o ≡ true) (open' : f.closed ≡ false)
    (readable : f.readable ≡ true) where
  -- The rounds of one chunk up to the reveal of the key.
  three_rounds :
      (fuel : ℕ) (inc out key nonce e : List ℕ) (i : ℕ) (p : Option Chunk) (ls : List (List ℕ))
      → IsU32 i
      → Base.length key ≡ key_size
      → Base.length nonce ≡ nonce_size
      → let k = sealed_chunk C key nonce s.file_id i (piece f i) in
        run (suc (suc (suc fuel))) (sender_steps C) (
          sending s f TransferState.waiting_chunk_request
            (link c (encode_chunk_request i ++ (encode_lottery_ticket i ++ inc)) out)
            (key ++ (nonce ++ e))
            i
            p
            ls)
        ≡ run fuel (sender_steps C) (
            sending s f TransferState.send_key_reveal
              (link c inc (out ++ encode_chunk_response k))
              e
              i
              (some k)
              ls)
  unfolding sender_steps is_allowed
  three_rounds fuel inc out key nonce e i p ls h hk hn =
      let inc' = encode_lottery_ticket i ++ inc in
      let k = sealed_chunk C key nonce s.file_id i (piece f i) in
      let out' = out ++ encode_chunk_response k in
      run_step (sender_steps C) (suc (suc fuel)) _ _ TransferState.waiting_chunk_request
        TransferState.send_chunk_response _ refl tt refl
        (wait_chunk_request_ok C s f c accepts inc' out (key ++ (nonce ++ e)) i p ls h) refl refl
      ∙ run_step (sender_steps C) (suc fuel) _ _ TransferState.send_chunk_response
          TransferState.waiting_lottery_ticket _ refl tt refl
          (send_chunk_response_ok C s f c accepts inc' out key nonce e i p ls h open' readable hk
            hn)
          refl refl
      ∙ run_step (sender_steps C) fuel _ _ TransferState.waiting_lottery_ticket
          TransferState.send_key_reveal _ refl tt refl
          (wait_lottery_ticket_ok C s f c accepts inc out' e i (some k) ls h) refl refl

  ended :
      (inc e : List ℕ) (ls : List (List ℕ)) {o o' : List ℕ} {j j' : ℕ}
      → o ≡ o'
      → j ≡ j'
      → ◌≡◌ {A = Option (Result (Unit {0}) × Session)}
          (some (ok tt, sending s f TransferState.finished (link c inc o) e j none ls))
          (some (ok tt, sending s f TransferState.finished (link c inc o') e j' none ls))
  ended inc e ls =
      ap₂ (λ o j. some (ok tt, sending s f TransferState.finished (link c inc o) e j none ls))

  -- From the request of chunk `i` on the sender goes through all its chunks to the end.
  pub sends_every_chunk :
      (rest : Secrets) (inc out key nonce e root : List ℕ) (i : ℕ) (p : Option Chunk)
      (ls : List (List ℕ))
      → i + 1 + Base.length rest ≡ s.total_chunks
      → IsU32 s.total_chunks
      → IsSecret (key, nonce)
      → All IsSecret rest
      → let ks = chunks_from C s.file_id f.content i ((key, nonce) ∷ rest) in
        root_of_tree (build_tree C (with_leaves C ls ks)) ≡ ok root
        → run (sender_rounds rest) (sender_steps C) (
            sending s f TransferState.waiting_chunk_request
              (link c (receiver_says ks (encode_final_ack ++ inc)) out)
              (drawn ((key, nonce) ∷ rest) e)
              i
              p
              ls)
          ≡ some (
            ok tt,
            sending s f TransferState.finished
                (link c inc (out ++ sender_says ks (encode_root root)))
                e
                (i + Base.length rest)
                none
                (with_leaves C ls ks),
          )
  unfolding sender_steps is_allowed sealed_chunk
  sends_every_chunk [] inc out key nonce e root i p ls last fits (hk, hn) hs h =
      let k = sealed_chunk C key nonce s.file_id i (piece f i) in
      let ls' = ls ++ (generate_leaf C k ∷ []) in
      let out1 = out ++ encode_chunk_response k in
      let out2 = out1 ++ encode_key_reveal i key in
      three_rounds (suc (suc (suc 0))) (encode_final_ack ++ inc) out key nonce e i p ls
        (omega arith) hk hn
      ∙ run_step (sender_steps C) (suc (suc 0)) _ _ TransferState.send_key_reveal
          TransferState.verify_merkle _ refl tt refl
          (send_last_key_reveal_ok C s f c accepts (encode_final_ack ++ inc) out1 e i k ls
            (omega arith))
          refl refl
      ∙ run_step (sender_steps C) (suc 0) _ _ TransferState.verify_merkle TransferState.finished _
          refl tt refl (verify_merkle_ok C s f c accepts inc out2 e root i none ls' h) refl refl
      ∙ run_finished (sender_steps C) 0 _ refl
      ∙ ended inc e ls' (regroup out _ _ (encode_root root)) (omega arith)
  sends_every_chunk ((key', nonce') ∷ rest) inc out key nonce e root i p ls more fits (hk, hn)
        (hs, hr) h =
      let k = sealed_chunk C key nonce s.file_id i (piece f i) in
      let ks = chunks_from C s.file_id f.content (i + 1) ((key', nonce') ∷ rest) in
      let ls' = ls ++ (generate_leaf C k ∷ []) in
      let out1 = out ++ encode_chunk_response k in
      let out2 = out1 ++ encode_key_reveal i key in
      let inc' = receiver_says ks (encode_final_ack ++ inc) in
      three_rounds (suc (sender_rounds rest)) inc' out key nonce (drawn ((key', nonce') ∷ rest) e) i
        p ls (omega arith) hk hn
      ∙ run_step (sender_steps C) (sender_rounds rest) _ _ TransferState.send_key_reveal
          TransferState.waiting_chunk_request _ refl tt refl
          (send_key_reveal_ok C s f c accepts inc' out1 (drawn ((key', nonce') ∷ rest) e) i k ls
            (omega arith) fits)
          refl refl
      ∙ sends_every_chunk rest inc out2 key' nonce' e root (i + 1) none ls' (omega arith) fits hs hr
          h
      ∙ ended inc e (with_leaves C ls' ks) (regroup out _ _ (sender_says ks (encode_root root)))
          (omega arith)
