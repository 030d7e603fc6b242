-- ===== src/Transfer/Told/Moments.antt =====
-- What the session of `SendFile` has read and written at every moment, while bytes of any peer arrive.
use file_transfer_using_libp.Base.{
  ℕ, ◌≡◌, refl, sym, ap, subst, some, inl, inr, List, [], ◌++◌, append-nil, All, All-append, IsByte,
  ok,
}
use file_transfer_using_libp.Protocol.State.{TransferState}
use file_transfer_using_libp.Protocol.Stream.{Stream}
use file_transfer_using_libp.Protocol.Types.{MetaData}
use file_transfer_using_libp.Protocol.File.{File, Disk}
use file_transfer_using_libp.Protocol.Session.{Session}
use file_transfer_using_libp.Protocol.Reached.{Reached, more_came, Reached-At}
use file_transfer_using_libp.Protocol.Progress.{IsWorking, Driven, Leads-map}
use file_transfer_using_libp.Crypto.{Crypto}
use file_transfer_using_libp.Controllers.Sender.{
  sender_steps, generate_file_id, prepare_metadata, open_session, session_header,
}
use file_transfer_using_libp.Controllers.Sender.Steps.{sender_rank}
use file_transfer_using_libp.Controllers.Sender.Invariant.{sender_hears}
use file_transfer_using_libp.Transfer.Transcript.{Hearing-arrived, with_arrived}
use file_transfer_using_libp.Transfer.Told.{ToldAt}
use file_transfer_using_libp.Transfer.Told.Rounds.{with_id, SaidAt, both_keep, said-Driven}
use file_transfer_using_libp.Transfer.Told.Whole.{Opened, open_session-Opened}

module _ (C : Crypto) (h : MetaData) (f : File) (entropy0 : List ℕ) (conn0 : Stream) where
  -- Some bytes have come since, and with them from the first the session would be the same.
  abbrev pub SaidSoFar : TransferState → Session → Type 0
  SaidSoFar st s =
      (arrived : List ℕ) × All IsByte arrived
      × SaidAt C h f entropy0 (with_arrived conn0 arrived) st s

  told_hears :
      (st : TransferState) (s : Session) (arrived bytes : List ℕ)
      → ToldAt C h f entropy0 (with_arrived conn0 arrived) st s
      → ToldAt C h f entropy0 (with_arrived conn0 (arrived ++ bytes)) st (more_came bytes s)
  unfolding session_header
  told_hears TransferState.idle s arrived bytes (e, seals, x) =
      (e, seals, Hearing-arrived conn0 arrived bytes x)
  told_hears TransferState.send_header s arrived bytes (e, seals, x) =
      (e, seals, Hearing-arrived conn0 arrived bytes x)
  told_hears TransferState.waiting_chunk_request s arrived bytes (ss, seals, x) =
      (ss, seals, Hearing-arrived conn0 arrived bytes x)
  told_hears TransferState.send_chunk_response s arrived bytes (ss, seals, x) =
      (ss, seals, Hearing-arrived conn0 arrived bytes x)
  told_hears TransferState.waiting_lottery_ticket s arrived bytes
        (ss, key, nonce, secret, (p, seals, x)) =
      (ss, key, nonce, secret, (p, seals, Hearing-arrived conn0 arrived bytes x))
  told_hears TransferState.send_key_reveal s arrived bytes (ss, key, nonce, secret, (p, seals, x)) =
      (ss, key, nonce, secret, (p, seals, Hearing-arrived conn0 arrived bytes x))
  told_hears TransferState.verify_merkle s arrived bytes (ss, seals, x) =
      (ss, seals, Hearing-arrived conn0 arrived bytes x)
  told_hears TransferState.finished s arrived bytes (ss, n, hs, e, inl (zero, x)) =
      (ss, n, hs, e, inl (zero, Hearing-arrived conn0 arrived bytes x))
  told_hears TransferState.finished s arrived bytes (ss, n, hs, e, inr (root, r, x)) =
      (ss, n, hs, e, inr (root, r, Hearing-arrived conn0 arrived bytes x))
  told_hears _ s arrived bytes x = absurd x

  SaidSoFar-hears :
      (st : TransferState) (s : Session) (bytes : List ℕ)
      → All IsByte bytes
      → SaidSoFar st s
      → SaidSoFar st (more_came bytes s)
  SaidSoFar-hears st s bytes are_bytes (arrived, hs, (at, x)) = (
    arrived ++ bytes,
    All-append IsByte arrived bytes hs are_bytes,
    (sender_hears C st s bytes are_bytes at, told_hears st s arrived bytes x),
  )

  module _ (bytes0 : All IsByte conn0.incoming) where
    SaidSoFar-Driven :
        (st : TransferState) (s : Session)
        → s.state ≡ st
        → IsWorking st
        → SaidSoFar st s
        → Driven SaidSoFar sender_rank (sender_steps C) st s
    SaidSoFar-Driven st s e w (arrived, hs, x) =
        let conn = with_arrived conn0 arrived in
        let (step, is_step, l) =
          said-Driven C h f entropy0 conn (All-append IsByte conn0.incoming arrived bytes0 hs) st s
            e w x in
        (
          step,
          is_step,
          Leads-map (SaidAt C h f entropy0 conn) SaidSoFar sender_rank st s (step s)
              (λ next t y. (arrived, hs, y)) l,
        )

    pub SaidSoFar-Reached :
        (s t : Session) → SaidSoFar s.state s → Reached (sender_steps C) s t → SaidSoFar t.state t
    SaidSoFar-Reached =
        Reached-At SaidSoFar sender_rank (sender_steps C)
          (λ next t (arrived, hs, x).
            (arrived, hs, both_keep C h f entropy0 (with_arrived conn0 arrived) next t x))
          (λ next t. refl) (λ t x. x.2.0) SaidSoFar-hears SaidSoFar-Driven

-- At every moment of `SendFile` after it has opened a session, whatever its connection has and
-- whatever bytes it gets in the course of it, what it has read and written are the messages of the
-- protocol up to the state of the session, and no others: for each chunk that is done a request and a
-- ticket were read, and its response and its key written, in this order of the chunks of the file,
-- each sealed with a key and a nonce from the randomness; in the work on a chunk, one of at most
-- 2 ^ 32 - 1, the request is there before the response, and the ticket before the step that reveals the
-- key, and there is a leaf for each chunk before it; in the end the root was written and the
-- acknowledgement read, or the file has no chunks.
pub sender_moments :
    (C : Crypto) (now : ℕ) (path : List ℕ) (conn : Stream) (entropy : List ℕ) (disk : Disk)
    (s t : Session)
    → All IsByte conn.incoming
    → open_session C now path conn entropy disk ≡ ok s
    → Reached (sender_steps C) s t
    → (f : File) × (disk.open_file path ≡ some f)
      × (file_id : List ℕ) × (generate_file_id C now f ≡ ok file_id)
      × (header : MetaData) × (prepare_metadata f ≡ ok header)
      × SaidSoFar C (with_id header file_id) f entropy conn t.state t
sender_moments C now path conn entropy disk s t bytes opens r =
    let (f, is_f, file_id, e, header, e', idle, x) =
      subst (Opened C now (disk.open_file path) entropy conn) opens
        (open_session-Opened C now path conn entropy disk) in
    let h = with_id header file_id in
    let start =
      subst (λ c. SaidAt C h f entropy c s.state s)
        (ap (λ i. record conn { incoming = i }) (sym (append-nil conn.incoming)))
        (subst (λ st. SaidAt C h f entropy conn st s) (sym idle) x) in
    (
      f,
      is_f,
      file_id,
      e,
      header,
      e',
      SaidSoFar-Reached C h f entropy conn bytes s t ([], tt, start) r,
    )
