-- ===== src/Controllers/Sender/Invariant.antt =====
-- What holds of the sender's session at every moment, while bytes of any peer arrive.
use file_transfer_using_libp.Base.{
  ℕ, ◌≡◌, refl, sym, subst, subst₂, Option, none, some, inl, inr, Bool-cases, List, All, IsByte,
  Result, ok, arith,
}
use file_transfer_using_libp.Protocol.State.{TransferState}
use file_transfer_using_libp.Protocol.Stream.{Stream}
use file_transfer_using_libp.Protocol.Types.{MetaData}
use file_transfer_using_libp.Protocol.File.{File, Disk}
use file_transfer_using_libp.Protocol.Session.{Session, new_session}
use file_transfer_using_libp.Protocol.Reached.{Reached, more_came, Reached-At}
use file_transfer_using_libp.Crypto.{Crypto}
use file_transfer_using_libp.Controllers.Sender.{
  sender_steps, sender_session, prepare_session, prepare_metadata, open_found, open_session,
}
use file_transfer_using_libp.Controllers.Sender.Steps.{SenderAt, IsFresh, sender_rank, sender_keeps}
use file_transfer_using_libp.Controllers.Sender.Rounds.{sender-Driven}
use file_transfer_using_libp.Controllers.Sender.Finish.{identified, described, unidentified}

module _ (C : Crypto) where
  pub sender_hears :
      (st : TransferState) (s : Session) (bytes : List ℕ)
      → All IsByte bytes
      → SenderAt st s
      → SenderAt st (more_came bytes s)
  sender_hears TransferState.idle s bytes h v = ground arith
  sender_hears TransferState.send_header s bytes h v = ground arith
  sender_hears TransferState.waiting_chunk_request s bytes h v = ground arith
  sender_hears TransferState.send_chunk_response s bytes h v = ground arith
  sender_hears TransferState.waiting_lottery_ticket s bytes h v = ground arith
  sender_hears TransferState.send_key_reveal s bytes h v = ground arith
  sender_hears TransferState.verify_merkle s bytes h v = ground arith
  sender_hears TransferState.finished s bytes h v = ground arith
  sender_hears _ s bytes h v = absurd v

  -- A session that is handed out is idle and fresh.
  abbrev StartsFresh : Result Session → Type 0
  StartsFresh (ok s) = (s.state ≡ TransferState.idle) × IsFresh s
  StartsFresh _ = Unit

  found-StartsFresh :
      (now : ℕ) (conn : Stream) (entropy : List ℕ) (disk : Disk) (found : Option File)
      → StartsFresh (open_found C now conn entropy disk found)
  unfolding sender_session new_session
  found-StartsFresh now conn entropy disk none = tt
  found-StartsFresh now conn entropy disk (some f) =
      let Goal : Result (List ℕ) → Result MetaData → Type 0 =
        λ i h. StartsFresh (prepare_session C f conn entropy disk i h) in
      elim (Bool-cases f.stats) [
        | inl stats ↦
            let (file_id, e) = identified C now f stats in
            let (header, e', fits) = described C f stats in
            subst₂ Goal (sym e) (sym e')
              (refl, record { first_chunk = refl; fits = fits; no_leaves = refl })
        | inr fails ↦ subst (λ i. Goal i (prepare_metadata f)) (sym (unidentified C now f fails)) tt
      ]

  -- At every moment of `SendFile` after it has opened a session, whatever its connection has and
  -- whatever bytes it gets in the course of it, the invariant of the sender's state holds: before the
  -- header no chunk is done; in the work on a chunk, which is one of at most 2 ^ 32 - 1, there is a leaf
  -- for each chunk before it, and from the response to the reveal of the key the chunk is in flight; in
  -- the end every chunk has its leaf.
  pub sender-Reached :
      (now : ℕ) (path : List ℕ) (conn : Stream) (entropy : List ℕ) (disk : Disk) (s t : Session)
      → open_session C now path conn entropy disk ≡ ok s
      → Reached (sender_steps C) s t
      → SenderAt t.state t
  unfolding open_session
  sender-Reached now path conn entropy disk s t opens r =
      let fresh : StartsFresh (ok s) =
        subst StartsFresh opens (found-StartsFresh now conn entropy disk (disk.open_file path)) in
      Reached-At SenderAt sender_rank (sender_steps C) sender_keeps (λ next t. refl) (λ t v. v)
        sender_hears (sender-Driven C) s t (subst (λ st. SenderAt st s) (sym fresh.0) fresh.1) r
