-- ===== src/Controllers/Sender/Rounds.antt =====
-- `Run` of the sender's steps ends.
use file_transfer_using_libp.Base.{ℕ, ◌+◌, ◌*◌, ◌<◌, ◌≡◌, refl, sym, subst, arith}
use file_transfer_using_libp.Protocol.State.{TransferState}
use file_transfer_using_libp.Protocol.Session.{Session}
use file_transfer_using_libp.Protocol.Fsm.{run}
use file_transfer_using_libp.Protocol.Progress.{Driven, IsWorking, Ended, run-Ended}
use file_transfer_using_libp.Crypto.{Crypto}
use file_transfer_using_libp.Controllers.Sender.{sender_steps}
use file_transfer_using_libp.Controllers.Sender.Steps.{
  SenderAt, sender_rank, sender_keeps, idle_leads, send_header_leads, wait_chunk_request_leads,
  send_chunk_response_leads, wait_lottery_ticket_leads, send_key_reveal_leads, verify_merkle_leads,
  IsFresh,
}

module _ (C : Crypto) where
  pub sender-Driven :
      (st : TransferState) (s : Session)
      → s.state ≡ st
      → IsWorking st
      → SenderAt st s
      → Driven SenderAt sender_rank (sender_steps C) st s
  unfolding sender_steps
  sender-Driven TransferState.idle s h w v = (_, refl, idle_leads C s h v)
  sender-Driven TransferState.send_header s h w v = (_, refl, send_header_leads C s h v)
  sender-Driven TransferState.waiting_chunk_request s h w v =
      (_, refl, wait_chunk_request_leads C s h v)
  sender-Driven TransferState.send_chunk_response s h w v =
      (_, refl, send_chunk_response_leads C s h v)
  sender-Driven TransferState.waiting_lottery_ticket s h w v =
      (_, refl, wait_lottery_ticket_leads C s h v)
  sender-Driven TransferState.send_key_reveal s h w v = (_, refl, send_key_reveal_leads C s h v)
  sender-Driven TransferState.verify_merkle s h w v = (_, refl, verify_merkle_leads C s h v)
  sender-Driven TransferState.finished s h w v = absurd w
  sender-Driven _ s h w v = absurd v

  -- From a fresh session in state `Idle` (no chunk done, no leaf, the number of chunks a uint32), on any
  -- connection whatever, with any file and any randomness, `Run` of a sender ends within 4 rounds for
  -- each chunk and 4 more: it is finished, with a leaf for every chunk, or it is in the
  -- state `error` by the error of a step. It never panics (so that no nil `PendingChunk` is read),
  -- and it meets no missing step and no illegal transition.
  pub sender_run :
      (fuel : ℕ) (s : Session)
      → s.state ≡ TransferState.idle
      → IsFresh s
      → 4 * s.total_chunks + 3 < fuel
      → Ended SenderAt (run fuel (sender_steps C) s)
  sender_run fuel s h v less =
      run-Ended SenderAt sender_rank (sender_steps C) sender_keeps (λ next t. refl) (λ t v'. v')
        sender-Driven fuel s (subst (λ st. SenderAt st s) (sym h) v)
        (subst (λ st. sender_rank st s < fuel) (sym h) (ground arith))
