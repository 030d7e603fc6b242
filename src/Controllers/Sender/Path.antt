-- ===== src/Controllers/Sender/Path.antt =====
-- The states that the steps of a sender pass through, chunk by chunk: what is ahead of a session in
-- each state, and the steps that need no cryptography.
pub mod Whole
use file_transfer_using_libp.Base.{
  ℕ, suc, ◌+◌, ◌-◌, ◌*◌, ◌<◌, ◌≡◌, refl, sym, subst, some, List, [], ◌∷◌, ◌++◌, length,
  length-append, IsU32, arith, wrap, Result, ok,
}
use file_transfer_using_libp.Protocol.State.{TransferState}
use file_transfer_using_libp.Protocol.Session.{Session}
use file_transfer_using_libp.Protocol.Progress.{Leads}
use file_transfer_using_libp.Wire.{
  send_header, read_chunk_request, read_lottery_ticket, send_chunk_response, send_key_reveal,
  send_root, read_final_ack, encode_header, encode_chunk_response, encode_key_reveal, encode_root,
}
use file_transfer_using_libp.Wire.Plain.{
  write-IsPlain, read_chunk_request-IsPlain, read_lottery_ticket-IsPlain, read_final_ack-IsPlain,
}
use file_transfer_using_libp.Crypto.{Crypto, build_and_encrypt_chunk}
use file_transfer_using_libp.Merkle.{generate_leaf}
use file_transfer_using_libp.Merkle.Shape.{root_of_tree-build_tree}
use file_transfer_using_libp.Controllers.Actions.{finish_chunk, read_chunk_plaintext}
use file_transfer_using_libp.Controllers.Rules.{conn_rule, entropy_rule, file_rule}
use file_transfer_using_libp.Controllers.Plain.{
  on_some_file-IsPlain, read_chunk_plaintext-IsPlain, build_and_encrypt_chunk-IsPlain,
}
use file_transfer_using_libp.Controllers.Sender.{
  session_header, step_sender_idle, step_sender_send_header, step_sender_wait_chunk_request,
  step_sender_send_chunk_response, step_sender_wait_lottery_ticket, step_sender_send_key_reveal,
  step_sender_verify_merkle, reveal, verify_root,
}
use file_transfer_using_libp.Base
use file_transfer_using_libp.Base.{ap, ◌∙◌, panic, fatal, err, Bool-cases, inl, inr, ◌==◌, ==_iff}
use file_transfer_using_libp.Protocol.Session.{is_last_chunk}
use file_transfer_using_libp.Protocol.Fsm.{Step, run}
use file_transfer_using_libp.Controllers.Sender.{sender_steps}
use file_transfer_using_libp.Protocol.Progress.{IsWorking, Leads}
use file_transfer_using_libp.Protocol.Paths.{sender_chunk, chunks, ending}
use file_transfer_using_libp.Protocol.Paths.Runs.{states, Adds, run-Expect}
use file_transfer_using_libp.Controllers.Sender.Steps.{
  InChunk, IsFresh, SenderAt, sender_rank, sender_keeps, idle_leads, send_header_leads,
  wait_chunk_request_leads, send_chunk_response_leads, wait_lottery_ticket_leads,
  send_key_reveal_leads, verify_merkle_leads,
}

-- The states of that many chunks and of the end.
abbrev whole : ℕ → List TransferState
whole n = chunks sender_chunk n (ending n)

-- The states after one in which there are that many chunks behind the one in work.
abbrev pub ahead : TransferState → ℕ → List TransferState
ahead TransferState.waiting_chunk_request n =
    TransferState.send_chunk_response
    ∷ TransferState.waiting_lottery_ticket
    ∷ TransferState.send_key_reveal
    ∷ chunks sender_chunk n (ending 1)
ahead TransferState.send_chunk_response n =
    TransferState.waiting_lottery_ticket
    ∷ TransferState.send_key_reveal
    ∷ chunks sender_chunk n (ending 1)
ahead TransferState.waiting_lottery_ticket n =
    TransferState.send_key_reveal ∷ chunks sender_chunk n (ending 1)
ahead TransferState.send_key_reveal n = chunks sender_chunk n (ending 1)
ahead TransferState.verify_merkle n = TransferState.finished ∷ []
ahead _ n = []

-- Before the header all chunks of the session are ahead, in a chunk those that are missing.
abbrev pub Expect : TransferState → Session → List TransferState → Type 0
Expect TransferState.idle s path = path ≡ TransferState.send_header ∷ whole s.total_chunks
Expect TransferState.send_header s path = path ≡ whole s.total_chunks
Expect st s path = path ≡ ahead st (s.total_chunks - suc s.current_chunk)

abbrev pub Does : TransferState → Session → Result TransferState × Session → Type 0
Does = Adds Expect

abbrev pub next : TransferState → List TransferState → List TransferState
next st path = st ∷ path

pub keeps_path :
    (st : TransferState) (t : Session) (path : List TransferState)
    → Expect st (record t { state = st }) path
    → Expect st t path
keeps_path TransferState.idle t path x = x
keeps_path TransferState.send_header t path x = x
keeps_path _ t path x = x

pub idle-Does : (s : Session) → Does TransferState.idle s (step_sender_idle s)
unfolding step_sender_idle
idle-Does s path x = ap (next TransferState.send_header) x

pub send_header-Does :
    (s : Session) → IsFresh s → Does TransferState.send_header s (step_sender_send_header s)
unfolding step_sender_send_header
send_header-Does s v =
    conn_rule (Does TransferState.send_header s) s (wrap "sending header")
      (send_header (session_header s) s.conn) _
      (unfold send_header in write-IsPlain (encode_header (session_header s)) s.conn)
      (λ _ c e. elim (Bool-cases (s.total_chunks == 0)) [
        | inl none_there ↦ rw none_there (λ path x.
            ap (next TransferState.finished) x
            ∙ ap whole (sym ((==_iff s.total_chunks 0).0 none_there)))
        | inr more ↦ rw more (λ path x.
            ap (next TransferState.waiting_chunk_request) x
            ∙ ap whole (
                let e : suc (s.total_chunks - suc s.current_chunk) ≡ s.total_chunks =
                  ground (arith, v.first_chunk) in
                e))
      ])
      (λ e c p. tt)

pub wait_chunk_request-Does :
    (s : Session) → Does TransferState.waiting_chunk_request s (step_sender_wait_chunk_request s)
unfolding step_sender_wait_chunk_request
wait_chunk_request-Does s =
    conn_rule (Does TransferState.waiting_chunk_request s) s _ (read_chunk_request s.conn) _
      (read_chunk_request-IsPlain s.conn)
      (λ idx c e. elim (Bool-cases (idx == s.current_chunk)) [
        | inl same ↦ rw same (λ path x. ap (next TransferState.send_chunk_response) x)
        | inr differ ↦ rw differ tt
      ])
      (λ e c p. tt)

pub wait_lottery_ticket-Does :
    (s : Session) → Does TransferState.waiting_lottery_ticket s (step_sender_wait_lottery_ticket s)
unfolding step_sender_wait_lottery_ticket
wait_lottery_ticket-Does s =
    conn_rule (Does TransferState.waiting_lottery_ticket s) s _ (read_lottery_ticket s.conn) _
      (read_lottery_ticket-IsPlain s.conn)
      (λ idx c e. elim (Bool-cases (idx == s.current_chunk)) [
        | inl same ↦ rw same (λ path x. ap (next TransferState.send_key_reveal) x)
        | inr differ ↦ rw differ tt
      ])
      (λ e c p. tt)

pub finish_chunk-Does :
    (s t : Session)
    → InChunk s
    → t.current_chunk ≡ s.current_chunk
    → t.total_chunks ≡ s.total_chunks
    → Does TransferState.send_key_reveal s (finish_chunk TransferState.waiting_chunk_request t)
unfolding finish_chunk
finish_chunk-Does s t v same same' = elim (Bool-cases (is_last_chunk t)) [
  | inl last ↦
      unfold is_last_chunk in
      rw last (λ path x.
        ap (next TransferState.verify_merkle) x
        ∙ ap (λ n. chunks sender_chunk n (ending 1))
            (let e : 0 ≡ s.total_chunks - suc s.current_chunk = ground (arith, v.in_range) in e))
  | inr more ↦
      unfold is_last_chunk in
      rw more (λ path x.
        ap (next TransferState.waiting_chunk_request) x
        ∙ ap (λ n. chunks sender_chunk n (ending 1))
            (let e : suc (t.total_chunks - suc (Base.u32 (t.current_chunk + 1)))
                  ≡ s.total_chunks - suc s.current_chunk =
                ground (arith, v.in_range, v.fits) in
              e))
]
