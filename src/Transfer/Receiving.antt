-- ===== src/Transfer/Receiving.antt =====
-- The receiver's side of a whole transfer.
use file_transfer_using_libp.Base.{
  ℕ, suc, ◌+◌, ◌-◌, ◌*◌, ◌^◌, ◌≤◌, ◌<◌, ◌≡◌, refl, sym, ap, ap₂, ◌∙◌, subst, true, false, Option,
  none, some, List, [], ◌∷◌, ◌++◌, append_assoc, take, drop, length-take, length-drop, All, IsU32,
  arith, Result, ok, min,
}
use file_transfer_using_libp.Base
use file_transfer_using_libp.Protocol.State.{TransferState, is_allowed}
use file_transfer_using_libp.Protocol.Types.{Chunk, chunk_size, key_size, nonce_size, hash_size}
use file_transfer_using_libp.Protocol.Stream.{Stream}
use file_transfer_using_libp.Protocol.File.{File, close_file}
use file_transfer_using_libp.Protocol.Session.{Session}
use file_transfer_using_libp.Protocol.Fsm.{run}
use file_transfer_using_libp.Protocol.Progress.{run_step, run_finished}
use file_transfer_using_libp.Wire.{
  encode_chunk_request, encode_lottery_ticket, encode_chunk_response, encode_key_reveal,
  encode_root, encode_final_ack,
}
use file_transfer_using_libp.Wire.Response.{IsWireChunk, received_chunk}
use file_transfer_using_libp.Crypto.{Crypto, IsLawful}
use file_transfer_using_libp.Crypto.Chunks.{sealed_chunk}
use file_transfer_using_libp.Merkle.{generate_leaf, build_tree, root_of_tree}
use file_transfer_using_libp.Controllers.Sender.Success.{link}
use file_transfer_using_libp.Controllers.Receiver.{receiver_steps}
use file_transfer_using_libp.Controllers.Receiver.Success.{
  receiving, written, send_chunk_request_ok, wait_chunk_response_ok, send_lottery_ticket_ok,
  wait_key_reveal_ok, verify_chunk_ok, verify_last_chunk_ok, verify_merkle_ok,
}
use file_transfer_using_libp.Transfer.{
  Secrets, IsSecret, slice, chunks_from, sender_says, receiver_says, with_leaves,
}
use file_transfer_using_libp.Transfer.Sending.{regroup}

-- The output file after the plaintexts of some chunks.
abbrev pub filled : File → List Chunk → File
filled f [] = f
filled f (k ∷ ks) = filled (written f k.plaintext) ks

-- Seven rounds for the last chunk with the tree and the end, five for every other.
abbrev pub receiver_rounds : Secrets → ℕ
receiver_rounds [] = suc (suc (suc (suc (suc (suc (suc 0))))))
receiver_rounds (_ ∷ rest) = suc (suc (suc (suc (suc (receiver_rounds rest)))))

-- A chunk of at most 32 KB keeps to the limits of the wire.
pub sealed-IsWireChunk :
    (C : Crypto) (key nonce file_id plaintext : List ℕ) (i : ℕ)
    → IsLawful C
    → IsU32 i
    → Base.length key ≡ key_size
    → Base.length nonce ≡ nonce_size
    → Base.length plaintext ≤ chunk_size
    → IsWireChunk (sealed_chunk C key nonce file_id i plaintext)
unfolding sealed_chunk
sealed-IsWireChunk C key nonce file_id plaintext i law h hk hn hp = record {
  index_fits = h;
  ciphertext_fits = omega (arith, law.length-gcm_seal key nonce plaintext hk hn);
  nonce_length = hn;
  h_resp_length = law.length-keccak256 _;
}

pub length-slice :
    (content : List ℕ) (i : ℕ)
    → Base.length (slice content i) ≡ min chunk_size (Base.length content - chunk_size * i)
length-slice content i =
    length-take chunk_size (drop (chunk_size * i) content)
    ∙ ap (min chunk_size) (length-drop (chunk_size * i) content)

module _ (C : Crypto) (law : IsLawful C) (s : Session) (content : List ℕ) (c : Stream)
    (accepts : (o : List ℕ) → c.accepts o ≡ true) where
  -- The rounds of one chunk up to its verification.
  four_rounds :
      (f : File) (fuel : ℕ) (inc out key nonce : List ℕ) (i : ℕ) (p : Option Chunk)
      (ls : List (List ℕ))
      → IsU32 i
      → Base.length key ≡ key_size
      → Base.length nonce ≡ nonce_size
      → let k = sealed_chunk C key nonce s.file_id i (slice content i) in
        run (suc (suc (suc (suc fuel)))) (receiver_steps C) (
          receiving s f TransferState.send_chunk_request
            (link c (encode_chunk_response k ++ (encode_key_reveal i key ++ inc)) out)
            i
            p
            ls)
        ≡ run fuel (receiver_steps C) (
            receiving s f TransferState.verify_chunk
              (link c inc ((out ++ encode_chunk_request i) ++ encode_lottery_ticket i))
              i
              (some (record (received_chunk s.file_id k) { key = key }))
              ls)
  unfolding receiver_steps is_allowed
  four_rounds f fuel inc out key nonce i p ls h hk hn =
      let k = sealed_chunk C key nonce s.file_id i (slice content i) in
      let inc1 = encode_chunk_response k ++ (encode_key_reveal i key ++ inc) in
      let inc2 = encode_key_reveal i key ++ inc in
      let out1 = out ++ encode_chunk_request i in
      let out2 = out1 ++ encode_lottery_ticket i in
      let d = received_chunk s.file_id k in
      let wire =
        sealed-IsWireChunk C key nonce s.file_id (slice content i) i law h hk hn
          (omega (arith, length-slice content i)) in
      run_step (receiver_steps C) (suc (suc (suc fuel))) _ _ TransferState.send_chunk_request
        TransferState.waiting_chunk_response _ refl tt refl
        (send_chunk_request_ok C s c accepts f inc1 out i p ls) refl refl
      ∙ run_step (receiver_steps C) (suc (suc fuel)) _ _ TransferState.waiting_chunk_response
          TransferState.send_lottery_ticket _ refl tt refl
          (wait_chunk_response_ok C s c accepts f inc2 out1 i p ls k wire
            (unfold sealed_chunk in refl))
          refl refl
      ∙ run_step (receiver_steps C) (suc fuel) _ _ TransferState.send_lottery_ticket
          TransferState.waiting_key_reveal _ refl tt refl
          (send_lottery_ticket_ok C s c accepts f inc2 out1 i (some d) ls) refl refl
      ∙ run_step (receiver_steps C) fuel _ _ TransferState.waiting_key_reveal
          TransferState.verify_chunk _ refl tt refl
          (wait_key_reveal_ok C s c accepts f inc out2 key i d ls h hk) refl refl

  ended :
      (f : File) (inc : List ℕ) (ls : List (List ℕ)) {o o' : List ℕ} {j j' : ℕ}
      → o ≡ o'
      → j ≡ j'
      → ◌≡◌ {A = Option (Result (Unit {0}) × Session)}
          (some (ok tt, receiving s f TransferState.finished (link c inc o) j none ls))
          (some (ok tt, receiving s f TransferState.finished (link c inc o') j' none ls))
  ended f inc ls =
      ap₂ (λ o j. some (ok tt, receiving s f TransferState.finished (link c inc o) j none ls))

  -- From the request of chunk `i` on the receiver takes all chunks to the end.
  pub receives_every_chunk :
      (rest : Secrets) (f : File) (inc out key nonce root : List ℕ) (i : ℕ) (p : Option Chunk)
      (ls : List (List ℕ))
      → i + 1 + Base.length rest ≡ s.total_chunks
      → IsU32 s.total_chunks
      → IsSecret (key, nonce)
      → All IsSecret rest
      → f.closed ≡ false
      → Base.length content - chunk_size * i ≤ f.room
      → Base.length root ≡ hash_size
      → let ks = chunks_from C s.file_id content i ((key, nonce) ∷ rest) in
        root_of_tree (build_tree C (with_leaves C ls ks)) ≡ ok root
        → run (receiver_rounds rest) (receiver_steps C) (
            receiving s f TransferState.send_chunk_request
              (link c (sender_says ks (encode_root root ++ inc)) out)
              i
              p
              ls)
          ≡ some (
            ok tt,
            receiving s
                (close_file (filled f ks)).1
                TransferState.finished
                (link c inc (out ++ receiver_says ks encode_final_ack))
                (i + Base.length rest)
                none
                (with_leaves C ls ks),
          )
  unfolding receiver_steps is_allowed sealed_chunk
  receives_every_chunk [] f inc out key nonce root i p ls last fits (hk, hn) hs open' room hr h =
      let k = sealed_chunk C key nonce s.file_id i (slice content i) in
      let ls' = ls ++ (generate_leaf C k ∷ []) in
      let out2 = (out ++ encode_chunk_request i) ++ encode_lottery_ticket i in
      let inc' = encode_root root ++ inc in
      let f' = written f (slice content i) in
      four_rounds f (suc (suc (suc 0))) inc' out key nonce i p ls (omega arith) hk hn
      ∙ run_step (receiver_steps C) (suc (suc 0)) _ _ TransferState.verify_chunk
          TransferState.verify_merkle _ refl tt refl
          (verify_last_chunk_ok C s c accepts law f key nonce (slice content i) i hk hn open'
            (omega (arith, length-slice content i)) (link c inc' out2) ls (omega arith))
          refl refl
      ∙ run_step (receiver_steps C) (suc 0) _ _ TransferState.verify_merkle TransferState.finished _
          refl tt refl (verify_merkle_ok C s c accepts f' inc out2 root i none ls' h hr) refl refl
      ∙ run_finished (receiver_steps C) 0 _ refl
      ∙ ended (close_file f').1 inc ls' (regroup out _ _ encode_final_ack) (omega arith)
  receives_every_chunk ((key', nonce') ∷ rest) f inc out key nonce root i p ls more fits (hk, hn)
        (hs, hrs) open' room hr h =
      let k = sealed_chunk C key nonce s.file_id i (slice content i) in
      let ks = chunks_from C s.file_id content (i + 1) ((key', nonce') ∷ rest) in
      let ls' = ls ++ (generate_leaf C k ∷ []) in
      let out2 = (out ++ encode_chunk_request i) ++ encode_lottery_ticket i in
      let inc' = sender_says ks (encode_root root ++ inc) in
      let f' = written f (slice content i) in
      four_rounds f (suc (receiver_rounds rest)) inc' out key nonce i p ls (omega arith) hk hn
      ∙ run_step (receiver_steps C) (receiver_rounds rest) _ _ TransferState.verify_chunk
          TransferState.send_chunk_request _ refl tt refl
          (verify_chunk_ok C s c accepts law f key nonce (slice content i) i hk hn open'
            (omega (arith, length-slice content i)) (link c inc' out2) ls (omega arith) fits)
          refl refl
      ∙ receives_every_chunk rest f' inc out2 key' nonce' root (i + 1) none ls' (omega arith) fits
          hs hrs open' (omega (arith, length-slice content i)) hr h
      ∙ ended (close_file (filled f' ks)).1 inc (with_leaves C ls' ks)
          (regroup out _ _ (receiver_says ks encode_final_ack)) (omega arith)
