-- ===== src/Controllers/Receiver/Path.antt =====
-- The states that `RecieveFile` passes through, chunk by chunk: what is ahead of a session in each
-- state, and the steps up to the key of a chunk.
pub mod Whole
use file_transfer_using_libp.Base.{
  ℕ, zero, suc, ◌+◌, ◌-◌, ◌<◌, ◌≡◌, refl, sym, ap, ◌∙◌, subst, some, List, [], ◌∷◌, ◌++◌, arith,
  Result, ok, err, panic, fatal, Option, none, Bool-cases, inl, inr, and_then, pure, list_eq, ◌==◌,
  ==_iff, All, IsByte,
}
use file_transfer_using_libp.Base
use file_transfer_using_libp.Protocol.State.{TransferState}
use file_transfer_using_libp.Protocol.Types.{MetaData}
use file_transfer_using_libp.Protocol.Stream.{Stream}
use file_transfer_using_libp.Protocol.File.{
  File, Disk, created, close_file, write_file, on_some_file,
}
use file_transfer_using_libp.Protocol.Session.{Session, is_last_chunk, new_session, role_receiver}
use file_transfer_using_libp.Protocol.Progress.{IsWorking, Leads}
use file_transfer_using_libp.Protocol.Fsm.{Step}
use file_transfer_using_libp.Protocol.Paths.{receiver_chunk, chunks, ending}
use file_transfer_using_libp.Protocol.Paths.Runs.{states, Adds, run-Expect}
use file_transfer_using_libp.Wire.{
  read_header, read_root, read_chunk_response, read_key_reveal, send_chunk_request,
  send_lottery_ticket, send_final_ack, encode_chunk_request, encode_lottery_ticket,
  encode_final_ack,
}
use file_transfer_using_libp.Wire.Plain.{
  write-IsPlain, read_header-IsPlain, read_root-IsPlain, read_chunk_response-IsPlain,
  read_key_reveal-IsPlain,
}
use file_transfer_using_libp.Crypto.{Crypto, decrypt_and_check}
use file_transfer_using_libp.Merkle.{generate_leaf}
use file_transfer_using_libp.Merkle.Shape.{root_of_tree-build_tree}
use file_transfer_using_libp.Controllers.Actions.{finish_chunk, on_some_pending, and_close}
use file_transfer_using_libp.Controllers.Rules.{conn_rule, file_rule, pending_rule}
use file_transfer_using_libp.Controllers.Plain.{
  on_some_file-IsPlain, write_file-IsPlain, close_file-IsPlain, decrypt_and_check-IsPlain,
}
use file_transfer_using_libp.Controllers.Receiver.{
  step_receiver_idle, step_receiver_receive_header, step_receiver_send_chunk_request,
  step_receiver_wait_chunk_response, step_receiver_send_lottery_ticket,
  step_receiver_wait_key_reveal, step_receiver_verify_chunk, step_receiver_verify_merkle,
  receiver_steps, receive_file, received_dir, keep_created, begin_chunks, set_key, store_chunk,
  check_root,
}
use file_transfer_using_libp.Controllers.Receiver.Verified.{length-Verified}
use file_transfer_using_libp.Controllers.Receiver.Rounds.{
  InChunk, HasPending, HasVerified, IsFresh, ReceiverAt, receiver_rank, idle_leads,
  send_chunk_request_leads, wait_chunk_response_leads, send_lottery_ticket_leads,
  wait_key_reveal_leads,
}
use file_transfer_using_libp.Controllers.Receiver.Start.{receive_header_leads}
use file_transfer_using_libp.Controllers.Receiver.Chunks.{verify_chunk_leads}
use file_transfer_using_libp.Controllers.Receiver.Finish.{receiver_keeps, verify_merkle_leads}

-- The states of that many chunks and of the end.
abbrev whole : ℕ → List TransferState
whole n = chunks receiver_chunk n (ending n)

-- The states after one in which there are that many chunks behind the one in work.
abbrev pub ahead : TransferState → ℕ → List TransferState
ahead TransferState.send_chunk_request n =
    TransferState.waiting_chunk_response
    ∷ TransferState.send_lottery_ticket
    ∷ TransferState.waiting_key_reveal
    ∷ TransferState.verify_chunk
    ∷ chunks receiver_chunk n (ending 1)
ahead TransferState.waiting_chunk_response n =
    TransferState.send_lottery_ticket
    ∷ TransferState.waiting_key_reveal
    ∷ TransferState.verify_chunk
    ∷ chunks receiver_chunk n (ending 1)
ahead TransferState.send_lottery_ticket n =
    TransferState.waiting_key_reveal
    ∷ TransferState.verify_chunk
    ∷ chunks receiver_chunk n (ending 1)
ahead TransferState.waiting_key_reveal n =
    TransferState.verify_chunk ∷ chunks receiver_chunk n (ending 1)
ahead TransferState.verify_chunk n = chunks receiver_chunk n (ending 1)
ahead TransferState.verify_merkle n = TransferState.finished ∷ []
ahead _ n = []

-- In a chunk there are as many more as are missing, and their number stays; before the header it is
-- the number that the session has in the end.
abbrev pub Expect : ℕ → TransferState → Session → List TransferState → Type 0
Expect total TransferState.idle s path = path ≡ TransferState.receive_header ∷ whole total
Expect total TransferState.receive_header s path = path ≡ whole total
Expect total st s path =
    (path ≡ ahead st (s.total_chunks - suc s.current_chunk)) × (total ≡ s.total_chunks)

abbrev pub Does : ℕ → TransferState → Session → Result TransferState × Session → Type 0
Does total = Adds (Expect total)

abbrev pub next : TransferState → List TransferState → List TransferState
next st path = st ∷ path

module _ (total : ℕ) where
  pub keeps_path :
      (st : TransferState) (t : Session) (path : List TransferState)
      → Expect total st (record t { state = st }) path
      → Expect total st t path
  keeps_path TransferState.idle t path x = x
  keeps_path TransferState.receive_header t path x = x
  keeps_path _ t path x = x

  pub idle-Does : (s : Session) → Does total TransferState.idle s (step_receiver_idle s)
  unfolding step_receiver_idle
  idle-Does s path x = ap (next TransferState.receive_header) x

  begin-Does :
      (s t : Session)
      → t.current_chunk ≡ 0
      → Does total TransferState.receive_header s (begin_chunks t)
  begin-Does s t first = elim (Bool-cases (t.total_chunks == 0)) [
    | inl none_there ↦ rw none_there (
        file_rule (Does total TransferState.receive_header s) t _ (on_some_file close_file t.file) _
          (on_some_file-IsPlain close_file t.file close_file-IsPlain)
          (λ _ o e path x.
            ap (next TransferState.finished) x.0
            ∙ ap whole (sym (x.1 ∙ (==_iff t.total_chunks 0).0 none_there)))
          (λ e o p. tt))
    | inr more ↦ rw more (λ path x.
        ap (next TransferState.send_chunk_request) x.0
        ∙ ap whole
            (let e : suc (t.total_chunks - suc t.current_chunk) ≡ total = ground (arith, x.1) in e))
  ]

  created-Does :
      (s t : Session) (h : MetaData) (o : Option File)
      → t.current_chunk ≡ 0
      → Does total TransferState.receive_header s
          (and_then (keep_created (received_dir ++ h.name) o t) (λ _. begin_chunks))
  created-Does s t h none first = tt
  created-Does s t h (some f) first =
      begin-Does s (record t { file = some (created (received_dir ++ h.name) f) }) first

  pub receive_header-Does :
      (s : Session)
      → IsFresh s
      → Does total TransferState.receive_header s (step_receiver_receive_header s)
  unfolding step_receiver_receive_header
  receive_header-Does s v =
      conn_rule (Does total TransferState.receive_header s) s _ (read_header s.conn) _
        (read_header-IsPlain s.conn)
        (λ h c e. created-Does s _ h (s.disk.create (received_dir ++ h.name)) v.0) (λ e c p. tt)

  pub send_chunk_request-Does :
      (s : Session)
      → Does total TransferState.send_chunk_request s (step_receiver_send_chunk_request s)
  unfolding step_receiver_send_chunk_request
  send_chunk_request-Does s =
      conn_rule (Does total TransferState.send_chunk_request s) s _
        (send_chunk_request s.current_chunk s.conn) _
        (unfold send_chunk_request in write-IsPlain (encode_chunk_request s.current_chunk) s.conn)
        (λ _ c e path x. (ap (next TransferState.waiting_chunk_response) x.0, x.1)) (λ e c p. tt)

  pub wait_chunk_response-Does :
      (s : Session)
      → Does total TransferState.waiting_chunk_response s (step_receiver_wait_chunk_response s)
  unfolding step_receiver_wait_chunk_response
  wait_chunk_response-Does s =
      conn_rule (Does total TransferState.waiting_chunk_response s) s _
        (read_chunk_response s.file_id s.conn) _ (read_chunk_response-IsPlain s.file_id s.conn)
        (λ k c e. elim (Bool-cases (k.index == s.current_chunk)) [
          | inl same ↦ rw same (λ path x. (ap (next TransferState.send_lottery_ticket) x.0, x.1))
          | inr differ ↦ rw differ tt
        ])
        (λ e c p. tt)

  pub send_lottery_ticket-Does :
      (s : Session)
      → Does total TransferState.send_lottery_ticket s (step_receiver_send_lottery_ticket s)
  unfolding step_receiver_send_lottery_ticket
  send_lottery_ticket-Does s =
      conn_rule (Does total TransferState.send_lottery_ticket s) s _
        (send_lottery_ticket s.current_chunk s.conn) _
        (unfold send_lottery_ticket in write-IsPlain (encode_lottery_ticket s.current_chunk) s.conn)
        (λ _ c e path x. (ap (next TransferState.waiting_key_reveal) x.0, x.1)) (λ e c p. tt)

  pub wait_key_reveal-Does :
      (s : Session)
      → HasPending s
      → Does total TransferState.waiting_key_reveal s (step_receiver_wait_key_reveal s)
  unfolding step_receiver_wait_key_reveal
  wait_key_reveal-Does s (k, pending, _, _, _) =
      conn_rule (Does total TransferState.waiting_key_reveal s) s _ (read_key_reveal s.conn) _
        (read_key_reveal-IsPlain s.conn)
        (λ revealed c e. elim (Bool-cases (revealed.0 == s.current_chunk)) [
          | inl same ↦ rw same (
              subst
                (λ o. Does total TransferState.waiting_key_reveal s (
                  and_then (on_some_pending (set_key revealed.1) o (record s { conn = c }))
                    (λ _. pure TransferState.verify_chunk)))
                (sym pending) (λ path x. (ap (next TransferState.verify_chunk) x.0, x.1)))
          | inr differ ↦ rw differ tt
        ])
        (λ e c p. tt)
