-- ===== src/Controllers/Receiver/Start.antt =====
-- The step of the receiver that reads the header and creates the output file.
use file_transfer_using_libp.Base.{
  length, ℕ, ◌≡◌, refl, ◌∙◌, true, Option, none, some, List, [], ◌++◌, IsU32, arith, ok, ◌==◌,
  Bool-cases, ==_iff, inl, inr, and_then,
}
use file_transfer_using_libp.Protocol.State.{TransferState, is_allowed}
use file_transfer_using_libp.Protocol.Types.{MetaData, hash_size}
use file_transfer_using_libp.Protocol.Stream.{Stream}
use file_transfer_using_libp.Protocol.File.{File, created, close_file, on_some_file, keep_file}
use file_transfer_using_libp.Protocol.Session.{Session}
use file_transfer_using_libp.Wire.{read_header}
use file_transfer_using_libp.Wire.Plain.{read_header-IsPlain}
use file_transfer_using_libp.Wire.Header.{read_header-Took}
use file_transfer_using_libp.Crypto.{Crypto}
use file_transfer_using_libp.Controllers.Rules.{conn_rule, file_rule}
use file_transfer_using_libp.Controllers.Plain.{on_some_file-IsPlain, close_file-IsPlain}
use file_transfer_using_libp.Controllers.Receiver.{
  step_receiver_receive_header, begin_chunks, received_dir, keep_created,
}
use file_transfer_using_libp.Controllers.Receiver.Verified.{Verified, nothing_yet}
use file_transfer_using_libp.Controllers.Receiver.Rounds.{IsFresh, ReceiverLeads}

-- A file that was closed without an error is closed, and its content is as it was.
pub close_file_ok :
    (f : File) (o : Option File)
    → keep_file (close_file f) ≡ (ok tt, o)
    → (g : File) × (o ≡ some g) × (g.closed ≡ true) × (g.content ≡ f.content)
unfolding close_file
close_file_ok f o e = ((close_file f).1, ground arith, ground arith, ground arith)

-- The session after the header was stored and the file created.
abbrev pub started : Session → Stream → MetaData → File → Session
started s c h f = record s {
  conn = c;
  file_id = h.file_id;
  file_name = h.name;
  file_size = h.file_size;
  total_chunks = h.reps;
  file = some f;
}

module _ (C : Crypto) where
  started_leads :
      (s : Session) (c : Stream) (h : MetaData) (f : File)
      → s.state ≡ TransferState.receive_header
      → IsFresh s
      → IsU32 h.reps
      → length h.file_id ≡ hash_size
      → f.content ≡ []
      → ReceiverLeads C TransferState.receive_header s (begin_chunks (started s c h f))
  unfolding is_allowed
  started_leads s c h f st (first, none_yet, bytes) fits size empty =
      elim (Bool-cases (h.reps == 0)) [
        | inl zero ↦ rw zero (
            file_rule (ReceiverLeads C TransferState.receive_header s) (started s c h f) _
              (on_some_file close_file (some f)) _
              (on_some_file-IsPlain close_file (some f) close_file-IsPlain)
              (λ _ o e.
                let (g, is_g, shut, kept) = close_file_ok f o e in
                (
                  st,
                  refl,
                  (g, is_g, shut, nothing ((==_iff h.reps 0).0 zero) (kept ∙ empty)),
                  omega arith,
                ))
              (λ e o p. tt))
        | inr more ↦
            rw more
              (st, refl, (ground arith, fits, size, (f, refl, nothing first empty)), omega arith)
      ]
    where
      nothing :
          {n : ℕ} {content : List ℕ}
          → n ≡ 0
          → content ≡ []
          → Verified C h.file_id n s.leaves content
      nothing e e' = rw (e, e', none_yet) (nothing_yet)

  created_leads :
      (s : Session) (c : Stream) (h : MetaData) (o : Option File)
      → s.state ≡ TransferState.receive_header
      → IsFresh s
      → IsU32 h.reps
      → length h.file_id ≡ hash_size
      → ReceiverLeads C TransferState.receive_header s (
          and_then
            (keep_created (received_dir ++ h.name) o (record s {
              conn = c;
              file_id = h.file_id;
              file_name = h.name;
              file_size = h.file_size;
              total_chunks = h.reps;
            }))
            (λ _. begin_chunks))
  unfolding created
  created_leads s c h none st v fits size = tt
  created_leads s c h (some f) st v fits size =
      started_leads s c h (created (received_dir ++ h.name) f) st v fits size refl

  pub receive_header_leads :
      (s : Session)
      → s.state ≡ TransferState.receive_header
      → IsFresh s
      → ReceiverLeads C TransferState.receive_header s (step_receiver_receive_header s)
  unfolding step_receiver_receive_header
  receive_header_leads s st v =
      conn_rule (ReceiverLeads C TransferState.receive_header s) s _ (read_header s.conn) _
        (read_header-IsPlain s.conn)
        (λ h c e.
          created_leads s c h (s.disk.create (received_dir ++ h.name)) st v
            (read_header-Took s.conn c h v.2 e).1.reps_fits
            (read_header-Took s.conn c h v.2 e).1.id_size)
        (λ e c p. tt)
