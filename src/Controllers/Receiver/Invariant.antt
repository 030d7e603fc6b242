-- ===== src/Controllers/Receiver/Invariant.antt =====
-- What holds of the receiver's session at every moment, while bytes of any peer arrive.
use file_transfer_using_libp.Base.{ℕ, refl, List, All, All-append, IsByte}
use file_transfer_using_libp.Protocol.State.{TransferState}
use file_transfer_using_libp.Protocol.Stream.{Stream}
use file_transfer_using_libp.Protocol.File.{Disk}
use file_transfer_using_libp.Protocol.Session.{Session, new_session, role_receiver}
use file_transfer_using_libp.Protocol.Reached.{Reached, more_came, Reached-At}
use file_transfer_using_libp.Crypto.{Crypto}
use file_transfer_using_libp.Controllers.Receiver.{receiver_steps}
use file_transfer_using_libp.Controllers.Receiver.Rounds.{ReceiverAt, receiver_rank}
use file_transfer_using_libp.Controllers.Receiver.Finish.{receiver_keeps, receiver-Driven}

module _ (C : Crypto) where
  pub receiver_hears :
      (st : TransferState) (s : Session) (bytes : List ℕ)
      → All IsByte bytes
      → ReceiverAt C st s
      → ReceiverAt C st (more_came bytes s)
  receiver_hears TransferState.idle s bytes h (first, none_yet, b) =
      (first, none_yet, All-append IsByte s.conn.incoming bytes b h)
  receiver_hears TransferState.receive_header s bytes h (first, none_yet, b) =
      (first, none_yet, All-append IsByte s.conn.incoming bytes b h)
  receiver_hears TransferState.send_chunk_request s bytes h v = v
  receiver_hears TransferState.waiting_chunk_response s bytes h v = v
  receiver_hears TransferState.send_lottery_ticket s bytes h v = v
  receiver_hears TransferState.waiting_key_reveal s bytes h v = v
  receiver_hears TransferState.verify_chunk s bytes h v = v
  receiver_hears TransferState.verify_merkle s bytes h v = v
  receiver_hears TransferState.finished s bytes h v = v
  receiver_hears _ s bytes h v = absurd v

  -- At every moment of `RecieveFile`, whatever bytes its connection has and get in the course of it,
  -- the invariant of the receiver's state holds: before the header nothing is there; in the work on a
  -- chunk, which is one of at most 2 ^ 32 - 1 that the header announced, the output file holds exactly
  -- the plaintexts of the genuine chunks before it; in the end all of them, and it is closed.
  pub receiver-Reached :
      (conn : Stream) (entropy : List ℕ) (disk : Disk) (t : Session)
      → All IsByte conn.incoming
      → Reached (receiver_steps C) (new_session conn role_receiver entropy disk) t
      → ReceiverAt C t.state t
  unfolding new_session
  receiver-Reached conn entropy disk t bytes r =
      Reached-At (ReceiverAt C) receiver_rank (receiver_steps C) (receiver_keeps C) (λ next t. refl)
        (λ t v. v) receiver_hears (receiver-Driven C) (new_session conn role_receiver entropy disk)
        t (refl, refl, bytes) r
