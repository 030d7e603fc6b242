-- ===== src/Controllers/Sender/Path/Whole.antt =====
-- The states that the whole run of a sender passes through.
use file_transfer_using_libp.Base.{ℕ, ◌≡◌, refl, sym, subst, some, [], ◌∷◌, ◌++◌, arith, ok}
use file_transfer_using_libp.Protocol.State.{TransferState}
use file_transfer_using_libp.Protocol.Session.{Session}
use file_transfer_using_libp.Protocol.Progress.{Leads}
use file_transfer_using_libp.Wire.{
  send_chunk_response, send_key_reveal, send_root, read_final_ack, encode_chunk_response,
  encode_key_reveal, encode_root,
}
use file_transfer_using_libp.Wire.Plain.{write-IsPlain, read_final_ack-IsPlain}
use file_transfer_using_libp.Crypto.{Crypto, build_and_encrypt_chunk}
use file_transfer_using_libp.Merkle.{generate_leaf}
use file_transfer_using_libp.Merkle.Shape.{root_of_tree-build_tree}
use file_transfer_using_libp.Controllers.Actions.{read_chunk_plaintext}
use file_transfer_using_libp.Controllers.Rules.{conn_rule, entropy_rule, file_rule}
use file_transfer_using_libp.Controllers.Plain.{
  on_some_file-IsPlain, read_chunk_plaintext-IsPlain, build_and_encrypt_chunk-IsPlain,
}
use file_transfer_using_libp.Controllers.Sender.{
  step_sender_send_chunk_response, step_sender_send_key_reveal, step_sender_verify_merkle, reveal,
  verify_root,
}
use file_transfer_using_libp.Base.{ap}
use file_transfer_using_libp.Protocol.Fsm.{Step, run}
use file_transfer_using_libp.Controllers.Sender.{sender_steps}
use file_transfer_using_libp.Protocol.Progress.{IsWorking, Leads}
use file_transfer_using_libp.Protocol.Paths.{sender_chunk, chunks, ending}
use file_transfer_using_libp.Protocol.Paths.Runs.{states, run-Expect}
use file_transfer_using_libp.Controllers.Sender.Steps.{
  IsFresh, SenderAt, sender_rank, sender_keeps, idle_leads, send_header_leads,
  wait_chunk_request_leads, send_chunk_response_leads, wait_lottery_ticket_leads,
  send_key_reveal_leads, verify_merkle_leads,
}
use file_transfer_using_libp.Controllers.Sender.Path.{
  Expect, Does, next, keeps_path, idle-Does, send_header-Does, wait_chunk_request-Does,
  wait_lottery_ticket-Does, finish_chunk-Does,
}

module _ (C : Crypto) where
  send_chunk_response-Does :
      (s : Session) → Does TransferState.send_chunk_response s (step_sender_send_chunk_response C s)
  unfolding step_sender_send_chunk_response
  send_chunk_response-Does s =
      let P = Does TransferState.send_chunk_response s in
      file_rule P s _ _ _
        (on_some_file-IsPlain (read_chunk_plaintext s.current_chunk s.chunk_size) s.file
          (read_chunk_plaintext-IsPlain s.current_chunk s.chunk_size))
        (λ plaintext f e.
          entropy_rule P (record s { file = f })
            (build_and_encrypt_chunk C s.file_id s.current_chunk plaintext s.entropy) _
            (build_and_encrypt_chunk-IsPlain C s.file_id s.current_chunk plaintext s.entropy)
            (λ k rest e'.
              conn_rule P (record s { file = f; entropy = rest }) _ (send_chunk_response k s.conn) _
                (unfold send_chunk_response in write-IsPlain (encode_chunk_response k) s.conn)
                (λ _ c e'' path x. ap (next TransferState.waiting_lottery_ticket) x) (λ e c p. tt))
            (λ e rest p. tt))
        (λ e f p. tt)

  send_key_reveal-Does :
      (s : Session)
      → SenderAt TransferState.send_key_reveal s
      → Does TransferState.send_key_reveal s (step_sender_send_key_reveal C s)
  unfolding step_sender_send_key_reveal
  send_key_reveal-Does s (v, (k, e)) =
      let P = Does TransferState.send_key_reveal s in
      subst (λ o. P (reveal C o s)) (sym e)
        (conn_rule P s _ (send_key_reveal s.current_chunk k.key s.conn) _
          (unfold send_key_reveal in write-IsPlain (encode_key_reveal s.current_chunk k.key) s.conn)
          (λ _ c e.
            finish_chunk-Does s
              (record s {
                conn = c;
                pending_chunk = some (record k { leaf = generate_leaf C k });
                leaves = s.leaves ++ (generate_leaf C k ∷ []);
              })
              v refl refl)
          (λ e c p. tt))

  verify_merkle-Does :
      (s : Session)
      → SenderAt TransferState.verify_merkle s
      → Does TransferState.verify_merkle s (step_sender_verify_merkle C s)
  unfolding step_sender_verify_merkle
  verify_merkle-Does s v =
      let P = Does TransferState.verify_merkle s in
      let (root, e) = root_of_tree-build_tree C s.leaves (omega arith) in
      subst (λ r. P (verify_root r s)) (sym e)
        (conn_rule P s _ (send_root root s.conn) _
          (unfold send_root in write-IsPlain (encode_root root) s.conn)
          (λ _ c e'.
            conn_rule P (record s { conn = c }) _ (read_final_ack c) _ (read_final_ack-IsPlain c)
              (λ _ d e'' path x. ap (next TransferState.finished) x) (λ e c p. tt))
          (λ e c p. tt))

  does :
      (st : TransferState) (s : Session)
      → s.state ≡ st
      → IsWorking st
      → SenderAt st s
      → (step : Step) × (sender_steps C st ≡ some step)
        × Leads SenderAt sender_rank st s (step s)
        × Does st s (step s)
  unfolding sender_steps
  does TransferState.idle s h w v = (_, refl, idle_leads C s h v, idle-Does s)
  does TransferState.send_header s h w v =
      (_, refl, send_header_leads C s h v, send_header-Does s v)
  does TransferState.waiting_chunk_request s h w v =
      (_, refl, wait_chunk_request_leads C s h v, wait_chunk_request-Does s)
  does TransferState.send_chunk_response s h w v =
      (_, refl, send_chunk_response_leads C s h v, send_chunk_response-Does s)
  does TransferState.waiting_lottery_ticket s h w v =
      (_, refl, wait_lottery_ticket_leads C s h v, wait_lottery_ticket-Does s)
  does TransferState.send_key_reveal s h w v =
      (_, refl, send_key_reveal_leads C s h v, send_key_reveal-Does s v)
  does TransferState.verify_merkle s h w v =
      (_, refl, verify_merkle_leads C s h v, verify_merkle-Does s v)
  does TransferState.finished s h w v = absurd w
  does _ s h w v = absurd v

  -- From a fresh session in state `Idle` (no chunk done, no leaf, the number of chunks a uint32), the
  -- states that a run of the sender's steps without an error passes through after `Idle` are the
  -- header; for each of the chunks of the session, the wait for the request, the response, the wait for
  -- the ticket and the reveal of the key; then `VerifyMerkle` where there is a chunk; and `Finished`.
  pub sender_run-states :
      (fuel : ℕ) (s t : Session)
      → s.state ≡ TransferState.idle
      → IsFresh s
      → run fuel (sender_steps C) s ≡ some (ok tt, t)
      → states fuel (sender_steps C) s
        ≡ TransferState.send_header ∷ chunks sender_chunk s.total_chunks (ending s.total_chunks)
  sender_run-states fuel s t idle fresh e =
      subst (λ st. Expect st s (states fuel (sender_steps C) s)) idle
        (run-Expect SenderAt sender_rank (sender_steps C) Expect sender_keeps keeps_path (λ t v. v)
          does fuel s t (subst (λ st. SenderAt st s) (sym idle) fresh)
          (λ done. subst (λ st. Expect st t []) (sym done) refl) e)
