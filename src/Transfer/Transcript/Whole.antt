-- ===== src/Transfer/Transcript/Whole.antt =====
-- The last step of `RecieveFile`, and the whole of it, against the transcript of the session.
use file_transfer_using_libp.Base.{
  ℕ, ◌+◌, ◌*◌, ◌^◌, ◌<◌, ◌≡◌, refl, sym, ap, ◌∙◌, subst, inl, inr, some, List, [], append-nil,
  arith, length, All, IsByte, Result, ok, err, panic, fatal, list_eq, list_eq_sound, Bool-cases,
}
use file_transfer_using_libp.Protocol.State.{TransferState}
use file_transfer_using_libp.Protocol.Stream.{Stream, write}
use file_transfer_using_libp.Protocol.File.{Disk, close_file, on_some_file}
use file_transfer_using_libp.Protocol.Session.{Session, new_session, role_receiver}
use file_transfer_using_libp.Protocol.Progress.{
  Leads, Driven, IsWorking, Ended, run-Ended, run_more,
}
use file_transfer_using_libp.Wire.{encode_root, encode_final_ack, read_root, send_final_ack}
use file_transfer_using_libp.Protocol.Types.{hash_size}
use file_transfer_using_libp.Wire.Plain.{write-IsPlain, read_root-IsPlain}
use file_transfer_using_libp.Wire.Messages.{read_root-Took}
use file_transfer_using_libp.Wire.Reads.{Took}
use file_transfer_using_libp.Crypto.{Crypto}
use file_transfer_using_libp.Merkle.{build_tree, root_of_tree}
use file_transfer_using_libp.Merkle.Shape.{root_of_tree-build_tree}
use file_transfer_using_libp.Controllers.Actions.{and_close}
use file_transfer_using_libp.Controllers.Rules.{conn_rule}
use file_transfer_using_libp.Controllers.Receiver.{
  step_receiver_idle, step_receiver_verify_merkle, receiver_steps, receive_file, check_root,
}
use file_transfer_using_libp.Controllers.Receiver.Verified.{length-Verified}
use file_transfer_using_libp.Controllers.Receiver.Rounds.{
  HasVerified, ReceiverAt, receiver_rank, idle_leads, send_chunk_request_leads,
  wait_chunk_response_leads, send_lottery_ticket_leads, wait_key_reveal_leads,
}
use file_transfer_using_libp.Controllers.Receiver.Start.{receive_header_leads}
use file_transfer_using_libp.Controllers.Receiver.Chunks.{verify_chunk_leads}
use file_transfer_using_libp.Controllers.Receiver.Finish.{
  verify_merkle_leads, receiver_keeps, close_file_shut,
}
use file_transfer_using_libp.Transfer.Transcript.{Transcript, Then}
use file_transfer_using_libp.Transfer.Transcript.Start.{receive_header-Then}
use file_transfer_using_libp.Transfer.Transcript.Steps.{
  hears_more, tells_more, send_chunk_request-Then, wait_chunk_response-Then,
  send_lottery_ticket-Then, wait_key_reveal-Then,
}
use file_transfer_using_libp.Transfer.Transcript.Chunks.{verify_chunk-Then}

module _ (C : Crypto) (conn0 : Stream) where
  idle-Then :
      (s : Session)
      → Transcript C conn0 TransferState.idle s
      → Then (Transcript C conn0) (step_receiver_idle s)
  unfolding step_receiver_idle
  idle-Then s x = x

  compared-Then :
      (s : Session) (c : Stream) (local_root remote_root : List ℕ)
      → Transcript C conn0 TransferState.verify_merkle s
      → root_of_tree (build_tree C s.leaves) ≡ ok local_root
      → Took (encode_root remote_root) s.conn c
      → length remote_root ≡ hash_size
      → Then
          (Transcript C conn0)
          (and_close (check_root (ok local_root) remote_root (record s { conn = c })))
  unfolding send_final_ack
  compared-Then s c local_root remote_root (h, ks, holds, x) is_root t size =
      elim (Bool-cases (list_eq local_root remote_root)) [
        | inl equal ↦ rw equal (
            conn_rule (λ r. Then (Transcript C conn0) (and_close r)) (record s { conn = c }) _
              (write encode_final_ack c) _ (write-IsPlain encode_final_ack c)
              (λ _ d e.
                let (shut, kept) = close_file_shut holds.file in
                (
                  h,
                  ks,
                  record {
                    wire = holds.wire;
                    same_id = holds.same_id;
                    same_total = holds.same_total;
                    count = holds.count ∙ holds.same_total;
                    each = holds.each;
                    same_leaves = holds.same_leaves;
                    file = (close_file holds.file).1;
                    is_file = ap (λ o. (on_some_file close_file o).1) holds.is_file;
                    content = kept ∙ holds.content;
                  },
                  inr (
                    local_root,
                    ap (λ ls. root_of_tree (build_tree C ls)) (sym holds.same_leaves) ∙ is_root,
                    ap length (list_eq_sound local_root remote_root equal) ∙ size,
                    tells_more C conn0 ks [] encode_final_ack
                        (hears_more C conn0 h ks [] x (
                          subst (λ root. Took (encode_root root) s.conn c)
                            (sym (list_eq_sound local_root remote_root equal)) t))
                        e,
                  ),
                ))
              (λ e d p. tt))
        | inr differ ↦ rw differ tt
      ]

  verify_merkle-Then :
      (s : Session)
      → HasVerified C s.total_chunks s × (0 < s.total_chunks)
      → Transcript C conn0 TransferState.verify_merkle s
      → Then (Transcript C conn0) (step_receiver_verify_merkle C s)
  unfolding step_receiver_verify_merkle
  verify_merkle-Then s ((f, is_f, v), some_chunks) x =
      let (root, e) =
        root_of_tree-build_tree C s.leaves (omega (arith, length-Verified C s.file_id v)) in
      conn_rule (λ r. Then (Transcript C conn0) (and_close r)) s _ (read_root s.conn) _
        (read_root-IsPlain s.conn)
        (λ remote_root c e'.
          subst
            (λ r.
              Then (Transcript C conn0)
                (and_close (check_root r remote_root (record s { conn = c }))))
            (sym e)
            (let (t, size) = read_root-Took s.conn c remote_root e' in
              compared-Then s c root remote_root x e t size))
        (λ e' c p. tt)

  -- What holds of the session, and what was read and written for it.
  abbrev pub HeardAt : TransferState → Session → Type 0
  HeardAt st s = ReceiverAt C st s × Transcript C conn0 st s

  both_lead :
      (st : TransferState) (s : Session) (r : Result TransferState × Session)
      → Leads (ReceiverAt C) receiver_rank st s r
      → Then (Transcript C conn0) r
      → Leads HeardAt receiver_rank st s r
  both_lead st s (ok next, t) (same, allowed, at, less) x = (same, allowed, (at, x), less)
  both_lead st s (err e, t) l x = tt
  both_lead st s (panic, t) l x = l
  both_lead st s (fatal e, t) l x = l

  pub both_keep :
      (next : TransferState) (t : Session)
      → HeardAt next t
      → HeardAt next (record t { state = next })
  both_keep next t (at, x) = (receiver_keeps C next t at, transcript_keeps next t x)
    where
      transcript_keeps :
          (next : TransferState) (t : Session)
          → Transcript C conn0 next t
          → Transcript C conn0 next (record t { state = next })
      transcript_keeps TransferState.idle t x = x
      transcript_keeps TransferState.receive_header t x = x
      transcript_keeps TransferState.send_chunk_request t x = x
      transcript_keeps TransferState.waiting_chunk_response t x = x
      transcript_keeps TransferState.send_lottery_ticket t x = x
      transcript_keeps TransferState.waiting_key_reveal t x = x
      transcript_keeps TransferState.verify_chunk t x = x
      transcript_keeps TransferState.verify_merkle t x = x
      transcript_keeps TransferState.finished t x = x
      transcript_keeps _ t x = absurd x

  module _ (bytes : All IsByte conn0.incoming) where
    pub heard-Driven :
        (st : TransferState) (s : Session)
        → s.state ≡ st
        → IsWorking st
        → HeardAt st s
        → Driven HeardAt receiver_rank (receiver_steps C) st s
    unfolding receiver_steps
    heard-Driven TransferState.idle s h w (v, x) =
        (_, refl, both_lead _ s _ (idle_leads C s h v) (idle-Then s x))
    heard-Driven TransferState.receive_header s h w (v, x) = (
      _,
      refl,
      both_lead _ s _ (receive_header_leads C s h v) (receive_header-Then C conn0 bytes s v x),
    )
    heard-Driven TransferState.send_chunk_request s h w (v, x) = (
      _,
      refl,
      both_lead _ s _ (send_chunk_request_leads C s h v) (send_chunk_request-Then C conn0 s x),
    )
    heard-Driven TransferState.waiting_chunk_response s h w (v, x) = (
      _,
      refl,
      both_lead _ s _ (wait_chunk_response_leads C s h v)
          (wait_chunk_response-Then C conn0 bytes s x),
    )
    heard-Driven TransferState.send_lottery_ticket s h w (v, x) = (
      _,
      refl,
      both_lead _ s _ (send_lottery_ticket_leads C s h v)
          (send_lottery_ticket-Then C conn0 s v.1 x),
    )
    heard-Driven TransferState.waiting_key_reveal s h w (v, x) = (
      _,
      refl,
      both_lead _ s _ (wait_key_reveal_leads C s h v) (wait_key_reveal-Then C conn0 bytes s v.1 x),
    )
    heard-Driven TransferState.verify_chunk s h w (v, x) =
        (_, refl, both_lead _ s _ (verify_chunk_leads C s h v) (verify_chunk-Then C conn0 s v x))
    heard-Driven TransferState.verify_merkle s h w (v, x) =
        (_, refl, both_lead _ s _ (verify_merkle_leads C s h v) (verify_merkle-Then s v x))
    heard-Driven TransferState.finished s h w x = absurd w
    heard-Driven _ s h w x = absurd x.0

-- On any bytes whatever that a peer sends, `RecieveFile` ends within 5 rounds for each of at most
-- 2 ^ 32 - 1 chunks and 4 more, without a panic, a missing step or an illegal transition. Either a
-- step failed and the state is `error`; or the session is finished, the output file is closed and
-- holds the plaintexts of as many genuine chunks as the header announced, in their order, and the
-- bytes that were read are the messages on them and no others: the header; for each chunk its
-- response and its key, in the order of the indices from 0; and the root over their leaves; while the
-- bytes that were written are a request and a ticket for each chunk and the acknowledgement. For a
-- header of no chunks only the header was read, and nothing was written.
pub receive_file-HeardAt :
    (C : Crypto) (fuel : ℕ) (conn : Stream) (entropy : List ℕ) (disk : Disk)
    → All IsByte conn.incoming
    → 5 * 2 ^ 32 + 3 < fuel
    → Ended (HeardAt C conn) (receive_file C fuel conn entropy disk)
unfolding receive_file new_session
receive_file-HeardAt C fuel conn entropy disk bytes less =
    run-Ended (HeardAt C conn) receiver_rank (receiver_steps C) (both_keep C conn) (λ next t. refl)
      (λ t v. v.0) (heard-Driven C conn bytes) fuel (new_session conn role_receiver entropy disk)
      ((refl, refl, bytes), record { has_heard = refl; has_told = sym (append-nil conn.outgoing) })
      less

-- Whatever `RecieveFile` returns without an error, however many rounds it took.
pub receive_file_heard :
    (C : Crypto) (fuel : ℕ) (conn : Stream) (entropy : List ℕ) (disk : Disk) (t : Session)
    → All IsByte conn.incoming
    → receive_file C fuel conn entropy disk ≡ some (ok tt, t)
    → HeardAt C conn TransferState.finished t
unfolding receive_file
receive_file_heard C fuel conn entropy disk t bytes e =
    let more = fuel + (5 * 2 ^ 32 + 4) in
    let same =
      run_more (receiver_steps C) fuel more (new_session conn role_receiver entropy disk) (ok tt, t)
        (omega arith) e in
    (subst (Ended (HeardAt C conn)) same
      (receive_file-HeardAt C more conn entropy disk bytes (omega arith))).1
