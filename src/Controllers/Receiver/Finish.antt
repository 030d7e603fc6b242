-- ===== src/Controllers/Receiver/Finish.antt =====
-- The last step of the receiver, and its whole run.
use file_transfer_using_libp.Base.{
  ℕ, ◌+◌, ◌*◌, ◌^◌, ◌<◌, ◌≡◌, refl, sym, subst, ap, true, some, List, arith, Result, ok, list_eq,
  Bool-cases, inl, inr, IsByte, All,
}
use file_transfer_using_libp.Protocol.State.{TransferState, is_allowed}
use file_transfer_using_libp.Protocol.Stream.{Stream}
use file_transfer_using_libp.Protocol.File.{File, Disk, close_file, on_some_file}
use file_transfer_using_libp.Protocol.Session.{Session, new_session, role_receiver}
use file_transfer_using_libp.Protocol.Progress.{Driven, IsWorking, Ended, run-Ended}
use file_transfer_using_libp.Wire.{read_root, send_final_ack, encode_final_ack}
use file_transfer_using_libp.Wire.Plain.{read_root-IsPlain, write-IsPlain}
use file_transfer_using_libp.Crypto.{Crypto}
use file_transfer_using_libp.Merkle.Shape.{root_of_tree-build_tree}
use file_transfer_using_libp.Controllers.Actions.{and_close}
use file_transfer_using_libp.Controllers.Rules.{conn_rule}
use file_transfer_using_libp.Controllers.Receiver.{
  step_receiver_verify_merkle, receiver_steps, receive_file, check_root,
}
use file_transfer_using_libp.Controllers.Receiver.Verified.{Verified, length-Verified}
use file_transfer_using_libp.Controllers.Receiver.Rounds.{
  HasVerified, ReceiverAt, ReceiverLeads, receiver_rank, idle_leads, send_chunk_request_leads,
  wait_chunk_response_leads, send_lottery_ticket_leads, wait_key_reveal_leads,
}
use file_transfer_using_libp.Controllers.Receiver.Start.{receive_header_leads}
use file_transfer_using_libp.Controllers.Receiver.Chunks.{verify_chunk_leads}

-- `Close` leaves a closed file with the same content, also where it gives an error.
pub close_file_shut :
    (f : File) → ((close_file f).1.closed ≡ true) × ((close_file f).1.content ≡ f.content)
unfolding close_file
close_file_shut f = ground arith

module _ (C : Crypto) where
  abbrev Closes : Session → Result TransferState × Session → Type 0
  Closes s r = ReceiverLeads C TransferState.verify_merkle s (and_close r)

  closed_leads :
      (s t : Session) (f : File)
      → t.state ≡ TransferState.verify_merkle
      → t.file ≡ some f
      → Verified C t.file_id t.total_chunks t.leaves f.content
      → s.total_chunks ≡ t.total_chunks
      → Closes s (ok TransferState.finished, t)
  unfolding is_allowed
  closed_leads s t f st is_f v same =
      let (shut, kept) = close_file_shut f in
      (
        st,
        refl,
        (
          (close_file f).1,
          ap (λ o. (on_some_file close_file o).1) is_f,
          shut,
          subst (Verified C t.file_id t.total_chunks t.leaves) (sym kept) v,
        ),
        omega arith,
      )

  compared_leads :
      (s t : Session) (f : File) (local_root remote_root : List ℕ)
      → t.state ≡ TransferState.verify_merkle
      → t.file ≡ some f
      → Verified C t.file_id t.total_chunks t.leaves f.content
      → s.total_chunks ≡ t.total_chunks
      → Closes s (check_root (ok local_root) remote_root t)
  compared_leads s t f local_root remote_root st is_f v same =
      elim (Bool-cases (list_eq local_root remote_root)) [
        | inl equal ↦ rw equal (
            conn_rule (Closes s) t _ (send_final_ack t.conn) _
              (unfold send_final_ack in write-IsPlain encode_final_ack t.conn)
              (λ _ c e. closed_leads s (record t { conn = c }) f st is_f v same) (λ e c p. tt))
        | inr differ ↦ rw differ tt
      ]

  pub verify_merkle_leads :
      (s : Session)
      → s.state ≡ TransferState.verify_merkle
      → HasVerified C s.total_chunks s × (0 < s.total_chunks)
      → ReceiverLeads C TransferState.verify_merkle s (step_receiver_verify_merkle C s)
  unfolding step_receiver_verify_merkle
  verify_merkle_leads s st ((f, is_f, v), some_chunks) =
      let (root, e) =
        root_of_tree-build_tree C s.leaves (omega (arith, length-Verified C s.file_id v)) in
      conn_rule (Closes s) s _ (read_root s.conn) _ (read_root-IsPlain s.conn)
        (λ remote_root c e'.
          subst (λ r. Closes s (check_root r remote_root (record s { conn = c }))) (sym e)
            (compared_leads s (record s { conn = c }) f root remote_root st is_f v refl))
        (λ e' c p. tt)

  pub receiver_keeps :
      (next : TransferState) (t : Session)
      → ReceiverAt C next t
      → ReceiverAt C next (record t { state = next })
  receiver_keeps TransferState.idle t v = v
  receiver_keeps TransferState.receive_header t v = v
  receiver_keeps TransferState.send_chunk_request t v = v
  receiver_keeps TransferState.waiting_chunk_response t v = v
  receiver_keeps TransferState.send_lottery_ticket t v = v
  receiver_keeps TransferState.waiting_key_reveal t v = v
  receiver_keeps TransferState.verify_chunk t v = v
  receiver_keeps TransferState.verify_merkle t v = v
  receiver_keeps TransferState.finished t v = v
  receiver_keeps _ t v = absurd v

  pub receiver-Driven :
      (st : TransferState) (s : Session)
      → s.state ≡ st
      → IsWorking st
      → ReceiverAt C st s
      → Driven (ReceiverAt C) receiver_rank (receiver_steps C) st s
  unfolding receiver_steps
  receiver-Driven TransferState.idle s h w v = (_, refl, idle_leads C s h v)
  receiver-Driven TransferState.receive_header s h w v = (_, refl, receive_header_leads C s h v)
  receiver-Driven TransferState.send_chunk_request s h w v =
      (_, refl, send_chunk_request_leads C s h v)
  receiver-Driven TransferState.waiting_chunk_response s h w v =
      (_, refl, wait_chunk_response_leads C s h v)
  receiver-Driven TransferState.send_lottery_ticket s h w v =
      (_, refl, send_lottery_ticket_leads C s h v)
  receiver-Driven TransferState.waiting_key_reveal s h w v =
      (_, refl, wait_key_reveal_leads C s h v)
  receiver-Driven TransferState.verify_chunk s h w v = (_, refl, verify_chunk_leads C s h v)
  receiver-Driven TransferState.verify_merkle s h w v = (_, refl, verify_merkle_leads s h v)
  receiver-Driven TransferState.finished s h w v = absurd w
  receiver-Driven _ s h w v = absurd v

  -- On any bytes whatever that a peer sends, `RecieveFile` ends within 5 rounds for each of at most
  -- 2 ^ 32 - 1 chunks and 4 more. Either a step failed and the state is `error`; or the session is
  -- finished, and then the output file is closed and holds exactly the plaintexts of as many genuine
  -- chunks as the header announced, in their order: each opened under its key, and with the hash that
  -- its response had committed to. It never panics, and meets no missing step and no illegal
  -- transition.
  pub receive_file-Ended :
      (fuel : ℕ) (conn : Stream) (entropy : List ℕ) (disk : Disk)
      → All IsByte conn.incoming
      → 5 * 2 ^ 32 + 3 < fuel
      → Ended (ReceiverAt C) (receive_file C fuel conn entropy disk)
  unfolding receive_file new_session
  receive_file-Ended fuel conn entropy disk bytes less =
      run-Ended (ReceiverAt C) receiver_rank (receiver_steps C) receiver_keeps (λ next t. refl)
        (λ t v. v) receiver-Driven fuel (new_session conn role_receiver entropy disk)
        (refl, refl, bytes) less
