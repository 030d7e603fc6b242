-- ===== src/Transfer/Waiting.antt =====
-- The rounds of each party that wait, where its connection has nothing to read.
use file_transfer_using_libp.Base.{ℕ, refl, sym, Option, List, [], append-nil}
use file_transfer_using_libp.Protocol.State.{TransferState}
use file_transfer_using_libp.Protocol.Types.{Chunk}
use file_transfer_using_libp.Protocol.Stream.{Stream, read_full}
use file_transfer_using_libp.Protocol.File.{File, Disk}
use file_transfer_using_libp.Protocol.Session.{Session, new_session, role_receiver}
use file_transfer_using_libp.Wire.{
  read_sentinel, read_chunk_request, read_lottery_ticket, read_chunk_response, read_key_reveal,
  read_root, read_header,
}
use file_transfer_using_libp.Crypto.{Crypto}
use file_transfer_using_libp.Controllers.Sender.{
  sender_steps, step_sender_wait_chunk_request, step_sender_wait_lottery_ticket,
}
use file_transfer_using_libp.Controllers.Sender.Success.{link, sending}
use file_transfer_using_libp.Controllers.Receiver.{
  receiver_steps, step_receiver_wait_chunk_response, step_receiver_wait_key_reveal,
  step_receiver_verify_merkle, step_receiver_receive_header,
}
use file_transfer_using_libp.Controllers.Receiver.Success.{receiving}
use file_transfer_using_libp.Transfer.Turns.{party}
use file_transfer_using_libp.Transfer.Parties.{Quiet, wait-Quiet}

module _ (C : Crypto) (s : Session) (f : File) (c : Stream) (out e : List ℕ) (i : ℕ)
    (p : Option Chunk) (ls : List (List ℕ)) where
  pub chunk_request-Quiet :
      Quiet
        (sender_steps C)
        (party (sending s f TransferState.waiting_chunk_request (link c [] out) e i p ls) [])
  unfolding sender_steps step_sender_wait_chunk_request read_chunk_request read_sentinel read_full
  chunk_request-Quiet =
      wait-Quiet (sender_steps C) _ [] TransferState.waiting_chunk_request _ refl tt refl _ _ refl
        (sym (append-nil out))

  pub lottery_ticket-Quiet :
      Quiet
        (sender_steps C)
        (party (sending s f TransferState.waiting_lottery_ticket (link c [] out) e i p ls) [])
  unfolding sender_steps step_sender_wait_lottery_ticket read_lottery_ticket read_sentinel read_full
  lottery_ticket-Quiet =
      wait-Quiet (sender_steps C) _ [] TransferState.waiting_lottery_ticket _ refl tt refl _ _ refl
        (sym (append-nil out))

module _ (C : Crypto) (r : Session) (g : File) (d : Stream) (out : List ℕ) (i : ℕ)
    (p : Option Chunk) (ls : List (List ℕ)) where
  pub chunk_response-Quiet :
      Quiet
        (receiver_steps C)
        (party (receiving r g TransferState.waiting_chunk_response (link d [] out) i p ls) [])
  unfolding receiver_steps step_receiver_wait_chunk_response read_chunk_response read_sentinel
      read_full
  chunk_response-Quiet =
      wait-Quiet (receiver_steps C) _ [] TransferState.waiting_chunk_response _ refl tt refl _ _
        refl (sym (append-nil out))

  pub key_reveal-Quiet :
      Quiet
        (receiver_steps C)
        (party (receiving r g TransferState.waiting_key_reveal (link d [] out) i p ls) [])
  unfolding receiver_steps step_receiver_wait_key_reveal read_key_reveal read_sentinel read_full
  key_reveal-Quiet =
      wait-Quiet (receiver_steps C) _ [] TransferState.waiting_key_reveal _ refl tt refl _ _ refl
        (sym (append-nil out))

  pub root-Quiet :
      Quiet
        (receiver_steps C)
        (party (receiving r g TransferState.verify_merkle (link d [] out) i p ls) [])
  unfolding receiver_steps step_receiver_verify_merkle read_root read_sentinel read_full
  root-Quiet =
      wait-Quiet (receiver_steps C) _ [] TransferState.verify_merkle _ refl tt refl _ _ refl
        (sym (append-nil out))

module _ (C : Crypto) (d : Stream) (entropy : List ℕ) (disk : Disk) where
  pub receive_header-Quiet : Quiet (receiver_steps C) (
      party
        (record (new_session (link d [] []) role_receiver entropy disk) {
          state = TransferState.receive_header;
        })
        [])
  unfolding receiver_steps step_receiver_receive_header read_header read_sentinel read_full
      new_session
  receive_header-Quiet =
      wait-Quiet (receiver_steps C) _ [] TransferState.receive_header _ refl tt refl _ _ refl refl
