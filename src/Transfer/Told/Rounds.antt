-- ===== src/Transfer/Told/Rounds.antt =====
-- Every step of `SendFile` keeps what holds of the session, with what it has read and written.
use file_transfer_using_libp.Base.{ℕ, ◌≡◌, refl, List, All, IsByte, Result, ok, err, panic, fatal}
use file_transfer_using_libp.Protocol.State.{TransferState}
use file_transfer_using_libp.Protocol.Types.{MetaData}
use file_transfer_using_libp.Protocol.Stream.{Stream}
use file_transfer_using_libp.Protocol.File.{File}
use file_transfer_using_libp.Protocol.Session.{Session}
use file_transfer_using_libp.Protocol.Progress.{Leads, Driven, IsWorking}
use file_transfer_using_libp.Crypto.{Crypto}
use file_transfer_using_libp.Controllers.Sender.{sender_steps, session_header}
use file_transfer_using_libp.Controllers.Sender.Steps.{
  SenderAt, sender_rank, sender_keeps, idle_leads, send_header_leads, wait_chunk_request_leads,
  send_chunk_response_leads, wait_lottery_ticket_leads, send_key_reveal_leads, verify_merkle_leads,
}
use file_transfer_using_libp.Transfer.Transcript.{Then}
use file_transfer_using_libp.Transfer.Told.{ToldAt}
use file_transfer_using_libp.Transfer.Told.Steps.{
  idle_told, send_header_told, wait_chunk_request_told, wait_lottery_ticket_told,
  verify_merkle_told,
}
use file_transfer_using_libp.Transfer.Told.Responses.{send_chunk_response_told}
use file_transfer_using_libp.Transfer.Told.Chunks.{send_key_reveal_told}

-- The header of a transfer: the description of the file, with its id.
abbrev pub with_id : MetaData → List ℕ → MetaData
with_id header file_id = record header { file_id = file_id }

module _ (C : Crypto) (h : MetaData) (f : File) (entropy0 : List ℕ) (conn0 : Stream) where
  -- What holds of the session, and what was read and written for it.
  abbrev pub SaidAt : TransferState → Session → Type 0
  SaidAt st s = SenderAt st s × ToldAt C h f entropy0 conn0 st s

  both_lead :
      (st : TransferState) (s : Session) (r : Result TransferState × Session)
      → Leads SenderAt sender_rank st s r
      → Then (ToldAt C h f entropy0 conn0) r
      → Leads SaidAt sender_rank st s r
  both_lead st s (ok next, t) (same, allowed, at, less) x = (same, allowed, (at, x), less)
  both_lead st s (err e, t) l x = tt
  both_lead st s (panic, t) l x = l
  both_lead st s (fatal e, t) l x = l

  told_keeps :
      (next : TransferState) (t : Session)
      → ToldAt C h f entropy0 conn0 next t
      → ToldAt C h f entropy0 conn0 next (record t { state = next })
  unfolding session_header
  told_keeps TransferState.idle t x = x
  told_keeps TransferState.send_header t x = x
  told_keeps TransferState.waiting_chunk_request t x = x
  told_keeps TransferState.send_chunk_response t x = x
  told_keeps TransferState.waiting_lottery_ticket t x = x
  told_keeps TransferState.send_key_reveal t x = x
  told_keeps TransferState.verify_merkle t x = x
  told_keeps TransferState.finished t x = x
  told_keeps _ t x = absurd x

  pub both_keep :
      (next : TransferState) (t : Session) → SaidAt next t → SaidAt next (record t { state = next })
  both_keep next t (at, x) = (sender_keeps next t at, told_keeps next t x)

  module _ (bytes : All IsByte conn0.incoming) where
    pub said-Driven :
        (st : TransferState) (s : Session)
        → s.state ≡ st
        → IsWorking st
        → SaidAt st s
        → Driven SaidAt sender_rank (sender_steps C) st s
    unfolding sender_steps
    said-Driven TransferState.idle s e w (v, x) =
        (_, refl, both_lead _ s _ (idle_leads C s e v) (idle_told C h f entropy0 conn0 s x))
    said-Driven TransferState.send_header s e w (v, x) = (
      _,
      refl,
      both_lead _ s _ (send_header_leads C s e v) (send_header_told C h f entropy0 conn0 s v x),
    )
    said-Driven TransferState.waiting_chunk_request s e w (v, x) = (
      _,
      refl,
      both_lead _ s _ (wait_chunk_request_leads C s e v)
          (wait_chunk_request_told C h f entropy0 conn0 bytes s x),
    )
    said-Driven TransferState.send_chunk_response s e w (v, x) = (
      _,
      refl,
      both_lead _ s _ (send_chunk_response_leads C s e v)
          (send_chunk_response_told C h f entropy0 conn0 s x),
    )
    said-Driven TransferState.waiting_lottery_ticket s e w (v, x) = (
      _,
      refl,
      both_lead _ s _ (wait_lottery_ticket_leads C s e v)
          (wait_lottery_ticket_told C h f entropy0 conn0 bytes s x),
    )
    said-Driven TransferState.send_key_reveal s e w (v, x) = (
      _,
      refl,
      both_lead _ s _ (send_key_reveal_leads C s e v)
          (send_key_reveal_told C h f entropy0 conn0 s v.0 x),
    )
    said-Driven TransferState.verify_merkle s e w (v, x) = (
      _,
      refl,
      both_lead _ s _ (verify_merkle_leads C s e v)
          (verify_merkle_told C h f entropy0 conn0 bytes s v x),
    )
    said-Driven TransferState.finished s e w x = absurd w
    said-Driven _ s e w x = absurd x.0
