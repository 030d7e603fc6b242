-- ===== src/Controllers/Receiver/Path/Whole.antt =====
-- The states that the whole of `RecieveFile` passes through.
use file_transfer_using_libp.Base.{
  ℕ, zero, suc, ◌+◌, ◌-◌, ◌<◌, ◌≡◌, refl, sym, ap, ◌∙◌, subst, some, List, [], ◌∷◌, ◌++◌, arith,
  Result, ok, err, panic, fatal, Option, none, Bool-cases, inl, inr, and_then, pure, list_eq, ◌==◌,
  ==_iff, All, IsByte,
}
use file_transfer_using_libp.Base
use file_transfer_using_libp.Protocol.State.{TransferState}
use file_transfer_using_libp.Protocol.Stream.{Stream}
use file_transfer_using_libp.Protocol.File.{Disk, write_file, on_some_file}
use file_transfer_using_libp.Protocol.Session.{Session, is_last_chunk, new_session, role_receiver}
use file_transfer_using_libp.Protocol.Progress.{IsWorking, Leads}
use file_transfer_using_libp.Protocol.Fsm.{Step}
use file_transfer_using_libp.Protocol.Paths.{receiver_chunk, chunks, ending}
use file_transfer_using_libp.Protocol.Paths.Runs.{states, run-Expect}
use file_transfer_using_libp.Wire.{read_root, send_final_ack, encode_final_ack}
use file_transfer_using_libp.Wire.Plain.{write-IsPlain, read_root-IsPlain}
use file_transfer_using_libp.Crypto.{Crypto, decrypt_and_check}
use file_transfer_using_libp.Merkle.{generate_leaf}
use file_transfer_using_libp.Merkle.Shape.{root_of_tree-build_tree}
use file_transfer_using_libp.Controllers.Actions.{finish_chunk, on_some_pending, and_close}
use file_transfer_using_libp.Controllers.Rules.{conn_rule, file_rule, pending_rule}
use file_transfer_using_libp.Controllers.Plain.{
  on_some_file-IsPlain, write_file-IsPlain, decrypt_and_check-IsPlain,
}
use file_transfer_using_libp.Controllers.Receiver.{
  step_receiver_verify_chunk, step_receiver_verify_merkle, receiver_steps, receive_file,
  store_chunk, check_root,
}
use file_transfer_using_libp.Controllers.Receiver.Verified.{length-Verified}
use file_transfer_using_libp.Controllers.Receiver.Rounds.{
  InChunk, HasPending, HasVerified, ReceiverAt, receiver_rank, idle_leads, send_chunk_request_leads,
  wait_chunk_response_leads, send_lottery_ticket_leads, wait_key_reveal_leads,
}
use file_transfer_using_libp.Controllers.Receiver.Start.{receive_header_leads}
use file_transfer_using_libp.Controllers.Receiver.Chunks.{verify_chunk_leads}
use file_transfer_using_libp.Controllers.Receiver.Finish.{receiver_keeps, verify_merkle_leads}
use file_transfer_using_libp.Controllers.Receiver.Path.{
  Expect, Does, next, keeps_path, idle-Does, receive_header-Does, send_chunk_request-Does,
  wait_chunk_response-Does, send_lottery_ticket-Does, wait_key_reveal-Does,
}

module _ (C : Crypto) (total : ℕ) where
  finish_chunk-Does :
      (s t : Session)
      → s.current_chunk < s.total_chunks
      → Base.IsU32 s.total_chunks
      → t.current_chunk ≡ s.current_chunk
      → t.total_chunks ≡ s.total_chunks
      → Does total TransferState.verify_chunk s (finish_chunk TransferState.send_chunk_request t)
  unfolding finish_chunk
  finish_chunk-Does s t less fits same same' = elim (Bool-cases (is_last_chunk t)) [
    | inl last ↦
        unfold is_last_chunk in
        rw last (λ path x. (
          ap (next TransferState.verify_merkle) x.0
              ∙ ap (λ n. chunks receiver_chunk n (ending 1))
                  (let e : 0 ≡ s.total_chunks - suc s.current_chunk = ground arith in e),
          x.1 ∙ same',
        ))
    | inr more ↦
        unfold is_last_chunk in
        rw more (λ path x. (
          ap (next TransferState.send_chunk_request) x.0
              ∙ ap (λ n. chunks receiver_chunk n (ending 1))
                  (let e : suc (t.total_chunks - suc (Base.u32 (t.current_chunk + 1)))
                        ≡ s.total_chunks - suc s.current_chunk =
                      ground arith in
                    e),
          x.1 ∙ same',
        ))
  ]

  verify_chunk-Does :
      (s : Session)
      → InChunk C s
      → HasPending s
      → Does total TransferState.verify_chunk s (step_receiver_verify_chunk C s)
  unfolding step_receiver_verify_chunk
  verify_chunk-Does s (less, fits, _, _) (k, pending, nonce, _, _) =
      subst
        (λ o.
          Does total TransferState.verify_chunk s
            (and_then (on_some_pending (decrypt_and_check C) o s) (store_chunk C)))
        (sym pending)
        (pending_rule (Does total TransferState.verify_chunk s) s (decrypt_and_check C k) _
          (decrypt_and_check-IsPlain C k nonce)
          (λ plaintext k' e.
            file_rule (Does total TransferState.verify_chunk s)
              (record s {
                pending_chunk = some (record k' { leaf = generate_leaf C k' });
                leaves = s.leaves ++ (generate_leaf C k' ∷ []);
              })
              _ (on_some_file (write_file plaintext) s.file) _
              (on_some_file-IsPlain (write_file plaintext) s.file (write_file-IsPlain plaintext))
              (λ _ o e'. finish_chunk-Does s _ less fits refl refl) (λ e' o p. tt))
          (λ e k' p. tt))

  compared-Does :
      (s t : Session) (local_root remote_root : List ℕ)
      → t.total_chunks ≡ s.total_chunks
      → Does total TransferState.verify_merkle s
          (and_close (check_root (ok local_root) remote_root t))
  compared-Does s t local_root remote_root same =
      elim (Bool-cases (list_eq local_root remote_root)) [
        | inl equal ↦ rw equal (
            conn_rule (λ r. Does total TransferState.verify_merkle s (and_close r)) t _
              (send_final_ack t.conn) _
              (unfold send_final_ack in write-IsPlain encode_final_ack t.conn)
              (λ _ c e path x. (ap (next TransferState.finished) x.0, x.1 ∙ same)) (λ e c p. tt))
        | inr differ ↦ rw differ tt
      ]

  verify_merkle-Does :
      (s : Session)
      → HasVerified C s.total_chunks s × (0 < s.total_chunks)
      → Does total TransferState.verify_merkle s (step_receiver_verify_merkle C s)
  unfolding step_receiver_verify_merkle
  verify_merkle-Does s ((f, is_f, v), some_chunks) =
      let (root, e) =
        root_of_tree-build_tree C s.leaves (omega (arith, length-Verified C s.file_id v)) in
      conn_rule (λ r. Does total TransferState.verify_merkle s (and_close r)) s _ (read_root s.conn)
        _ (read_root-IsPlain s.conn)
        (λ remote_root c e'.
          subst
            (λ r.
              Does total TransferState.verify_merkle s
                (and_close (check_root r remote_root (record s { conn = c }))))
            (sym e) (compared-Does s (record s { conn = c }) root remote_root refl))
        (λ e' c p. tt)

  does :
      (st : TransferState) (s : Session)
      → s.state ≡ st
      → IsWorking st
      → ReceiverAt C st s
      → (step : Step) × (receiver_steps C st ≡ some step)
        × Leads (ReceiverAt C) receiver_rank st s (step s)
        × Does total st s (step s)
  unfolding receiver_steps
  does TransferState.idle s h w v = (_, refl, idle_leads C s h v, idle-Does total s)
  does TransferState.receive_header s h w v =
      (_, refl, receive_header_leads C s h v, receive_header-Does total s v)
  does TransferState.send_chunk_request s h w v =
      (_, refl, send_chunk_request_leads C s h v, send_chunk_request-Does total s)
  does TransferState.waiting_chunk_response s h w v =
      (_, refl, wait_chunk_response_leads C s h v, wait_chunk_response-Does total s)
  does TransferState.send_lottery_ticket s h w v =
      (_, refl, send_lottery_ticket_leads C s h v, send_lottery_ticket-Does total s)
  does TransferState.waiting_key_reveal s h w v =
      (_, refl, wait_key_reveal_leads C s h v, wait_key_reveal-Does total s v.1)
  does TransferState.verify_chunk s h w v =
      (_, refl, verify_chunk_leads C s h v, verify_chunk-Does s v.0 v.1)
  does TransferState.verify_merkle s h w v =
      (_, refl, verify_merkle_leads C s h v, verify_merkle-Does s v)
  does TransferState.finished s h w v = absurd w
  does _ s h w v = absurd v

-- On any bytes of a peer, the states that a run of `RecieveFile` without an error passes through after
-- `Idle` are the header; for each of the chunks that its session counts in the end, the request, the
-- wait for the response, the ticket, the wait for the key and the check of the chunk; then
-- `VerifyMerkle` where there was a chunk; and `Finished`.
pub receive_file-states :
    (C : Crypto) (fuel : ℕ) (conn : Stream) (entropy : List ℕ) (disk : Disk) (t : Session)
    → All IsByte conn.incoming
    → receive_file C fuel conn entropy disk ≡ some (ok tt, t)
    → states fuel (receiver_steps C) (new_session conn role_receiver entropy disk)
      ≡ TransferState.receive_header ∷ chunks receiver_chunk t.total_chunks (ending t.total_chunks)
unfolding receive_file new_session
receive_file-states C fuel conn entropy disk t bytes e =
    run-Expect (ReceiverAt C) receiver_rank (receiver_steps C) (Expect t.total_chunks)
      (receiver_keeps C) (keeps_path t.total_chunks) (λ t v. v) (does C t.total_chunks) fuel
      (new_session conn role_receiver entropy disk) t (refl, refl, bytes)
      (λ done. subst (λ st. Expect t.total_chunks st t []) (sym done) (refl, refl)) e
