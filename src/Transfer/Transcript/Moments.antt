-- ===== src/Transfer/Transcript/Moments.antt =====
-- What the session of `RecieveFile` has read and written at every moment, while bytes of any peer
-- arrive.
use file_transfer_using_libp.Base.{
  ℕ, ◌≡◌, refl, sym, inl, inr, List, [], ◌++◌, append-nil, All, All-append, IsByte,
}
use file_transfer_using_libp.Protocol.State.{TransferState}
use file_transfer_using_libp.Protocol.Stream.{Stream}
use file_transfer_using_libp.Protocol.File.{Disk}
use file_transfer_using_libp.Protocol.Session.{Session, new_session, role_receiver}
use file_transfer_using_libp.Protocol.Reached.{Reached, more_came, Reached-At}
use file_transfer_using_libp.Protocol.Progress.{IsWorking, Driven, Leads-map}
use file_transfer_using_libp.Crypto.{Crypto}
use file_transfer_using_libp.Controllers.Receiver.{receiver_steps}
use file_transfer_using_libp.Controllers.Receiver.Rounds.{receiver_rank}
use file_transfer_using_libp.Controllers.Receiver.Invariant.{receiver_hears}
use file_transfer_using_libp.Transfer.Transcript.{Transcript, Hearing-arrived, with_arrived}
use file_transfer_using_libp.Transfer.Transcript.Whole.{HeardAt, both_keep, heard-Driven}

module _ (C : Crypto) (conn0 : Stream) where
  -- Some bytes have come since, and with them from the first the session would be the same.
  abbrev pub HeardSoFar : TransferState → Session → Type 0
  HeardSoFar st s =
      (arrived : List ℕ) × All IsByte arrived × HeardAt C (with_arrived conn0 arrived) st s

  Transcript-hears :
      (st : TransferState) (s : Session) (arrived bytes : List ℕ)
      → Transcript C (with_arrived conn0 arrived) st s
      → Transcript C (with_arrived conn0 (arrived ++ bytes)) st (more_came bytes s)
  Transcript-hears TransferState.idle s arrived bytes x = Hearing-arrived conn0 arrived bytes x
  Transcript-hears TransferState.receive_header s arrived bytes x =
      Hearing-arrived conn0 arrived bytes x
  Transcript-hears TransferState.send_chunk_request s arrived bytes (h, ks, holds, x) =
      (h, ks, holds, Hearing-arrived conn0 arrived bytes x)
  Transcript-hears TransferState.waiting_chunk_response s arrived bytes (h, ks, holds, x) =
      (h, ks, holds, Hearing-arrived conn0 arrived bytes x)
  Transcript-hears TransferState.send_lottery_ticket s arrived bytes
        (k, e, wire, (h, ks, holds, x)) =
      (k, e, wire, (h, ks, holds, Hearing-arrived conn0 arrived bytes x))
  Transcript-hears TransferState.waiting_key_reveal s arrived bytes
        (k, e, wire, (h, ks, holds, x)) =
      (k, e, wire, (h, ks, holds, Hearing-arrived conn0 arrived bytes x))
  Transcript-hears TransferState.verify_chunk s arrived bytes (k, e, wire, (h, ks, holds, x)) =
      (k, e, wire, (h, ks, holds, Hearing-arrived conn0 arrived bytes x))
  Transcript-hears TransferState.verify_merkle s arrived bytes (h, ks, holds, x) =
      (h, ks, holds, Hearing-arrived conn0 arrived bytes x)
  Transcript-hears TransferState.finished s arrived bytes (h, ks, holds, inl (zero, x)) =
      (h, ks, holds, inl (zero, Hearing-arrived conn0 arrived bytes x))
  Transcript-hears TransferState.finished s arrived bytes (h, ks, holds, inr (root, r, size, x)) =
      (h, ks, holds, inr (root, r, size, Hearing-arrived conn0 arrived bytes x))
  Transcript-hears _ s arrived bytes x = absurd x

  HeardSoFar-hears :
      (st : TransferState) (s : Session) (bytes : List ℕ)
      → All IsByte bytes
      → HeardSoFar st s
      → HeardSoFar st (more_came bytes s)
  HeardSoFar-hears st s bytes are_bytes (arrived, hs, (at, x)) = (
    arrived ++ bytes,
    All-append IsByte arrived bytes hs are_bytes,
    (receiver_hears C st s bytes are_bytes at, Transcript-hears st s arrived bytes x),
  )

  module _ (bytes0 : All IsByte conn0.incoming) where
    HeardSoFar-Driven :
        (st : TransferState) (s : Session)
        → s.state ≡ st
        → IsWorking st
        → HeardSoFar st s
        → Driven HeardSoFar receiver_rank (receiver_steps C) st s
    HeardSoFar-Driven st s e w (arrived, hs, x) =
        let conn = with_arrived conn0 arrived in
        let (step, is_step, l) =
          heard-Driven C conn (All-append IsByte conn0.incoming arrived bytes0 hs) st s e w x in
        (
          step,
          is_step,
          Leads-map (HeardAt C conn) HeardSoFar receiver_rank st s (step s)
              (λ next t y. (arrived, hs, y)) l,
        )

-- At every moment of `RecieveFile`, whatever bytes its connection has and gets in the course of it,
-- what it has read and written are the messages of the protocol up to the state of the session, and
-- no others: the header; for each chunk that is done its response and its key, and a request and a
-- ticket for it; for the chunk in work those of them that its state is past, so that a ticket was
-- written only after the response with the commitment was there. The output file holds exactly the
-- plaintexts of the chunks that are done, each of them genuine. In the end the root over their leaves
-- was read, and the acknowledgement written, or the header announced no chunks.
pub receiver_moments :
    (C : Crypto) (conn : Stream) (entropy : List ℕ) (disk : Disk) (t : Session)
    → All IsByte conn.incoming
    → Reached (receiver_steps C) (new_session conn role_receiver entropy disk) t
    → HeardSoFar C conn t.state t
unfolding new_session
receiver_moments C conn entropy disk t bytes =
    Reached-At (HeardSoFar C conn) receiver_rank (receiver_steps C)
      (λ next t (arrived, hs, x). (arrived, hs, both_keep C (with_arrived conn arrived) next t x))
      (λ next t. refl) (λ t x. x.2.0) (HeardSoFar-hears C conn) (HeardSoFar-Driven C conn bytes)
      (new_session conn role_receiver entropy disk) t
      (
        [],
        tt,
        (
          (refl, refl, bytes),
          record {
            has_heard = append-nil conn.incoming;
            has_told = sym (append-nil conn.outgoing);
          },
        ),
      )
