-- ===== src/Transfer/Transcript/Start.antt =====
-- The step of `RecieveFile` that reads the header, against the transcript of the session.
use file_transfer_using_libp.Base.{
  ℕ, ◌≡◌, refl, sym, subst, inl, inr, Option, none, some, [], ◌++◌, append-nil, All, IsByte, ◌==◌,
  ==_iff, Bool-cases, and_then,
}
use file_transfer_using_libp.Protocol.State.{TransferState}
use file_transfer_using_libp.Protocol.Types.{MetaData}
use file_transfer_using_libp.Protocol.Stream.{Stream}
use file_transfer_using_libp.Protocol.File.{File, created, on_some_file, close_file}
use file_transfer_using_libp.Protocol.Session.{Session}
use file_transfer_using_libp.Wire.{encode_header, read_header}
use file_transfer_using_libp.Wire.Plain.{read_header-IsPlain}
use file_transfer_using_libp.Wire.Header.{IsWireHeader, read_header-Took}
use file_transfer_using_libp.Crypto.{Crypto}
use file_transfer_using_libp.Controllers.Plain.{on_some_file-IsPlain, close_file-IsPlain}
use file_transfer_using_libp.Controllers.Rules.{conn_rule, file_rule}
use file_transfer_using_libp.Controllers.Receiver.{
  step_receiver_receive_header, begin_chunks, received_dir, keep_created,
}
use file_transfer_using_libp.Controllers.Receiver.Rounds.{IsFresh}
use file_transfer_using_libp.Controllers.Receiver.Start.{started, close_file_ok}
use file_transfer_using_libp.Transfer.Transcript.{
  Hearing, Hearing-IsByte, Transcript, Then, Kept, hears,
}

module _ (C : Crypto) (conn0 : Stream) where
  module _ (bytes : All IsByte conn0.incoming) where
    created-Then :
        (s : Session) (c : Stream) (h : MetaData) (o : Option File)
        → IsFresh s
        → IsWireHeader h
        → Hearing conn0 c (encode_header h) []
        → Then (Transcript C conn0) (
            and_then
              (keep_created (received_dir ++ h.name) o (record s {
                conn = c;
                file_id = h.file_id;
                file_name = h.name;
                file_size = h.file_size;
                total_chunks = h.reps;
              }))
              (λ _. begin_chunks))
    unfolding created
    created-Then s c h none v wire x = tt
    created-Then s c h (some f) (first, none_yet, _) wire x =
        let new = created (received_dir ++ h.name) f in
        elim (Bool-cases (h.reps == 0)) [
          | inl zero ↦ rw zero (
              file_rule (Then (Transcript C conn0)) (started s c h new) _
                (on_some_file close_file (some new)) _
                (on_some_file-IsPlain close_file (some new) close_file-IsPlain)
                (λ _ o e.
                  let (g, is_g, shut, kept) = close_file_ok new o e in
                  (
                    h,
                    [],
                    kept_of o g (sym ((==_iff h.reps 0).0 zero)) is_g kept,
                    inl ((==_iff h.reps 0).0 zero, x),
                  ))
                (λ e o p. tt))
          | inr more ↦ rw more (
            h,
            [],
            kept_of _ new (sym first) refl refl,
            subst (λ xs. Hearing conn0 c xs []) (sym (append-nil (encode_header h))) x,
          )
        ]
      where
        kept_of :
            (o : Option File) (g : File) {n : ℕ}
            → 0 ≡ n
            → o ≡ some g
            → g.content ≡ []
            → Kept C h n [] h.file_id h.reps s.leaves o
        kept_of o g e is_g empty = record {
          wire = wire;
          same_id = refl;
          same_total = refl;
          count = e;
          each = tt;
          same_leaves = none_yet;
          file = g;
          is_file = is_g;
          content = empty;
        }

    pub receive_header-Then :
        (s : Session)
        → IsFresh s
        → Transcript C conn0 TransferState.receive_header s
        → Then (Transcript C conn0) (step_receiver_receive_header s)
    unfolding step_receiver_receive_header
    receive_header-Then s v x =
        conn_rule (Then (Transcript C conn0)) s _ (read_header s.conn) _
          (read_header-IsPlain s.conn)
          (λ h c e.
            let (t, wire) = read_header-Took s.conn c h (Hearing-IsByte bytes x) e in
            created-Then s c h (s.disk.create (received_dir ++ h.name)) v wire (hears x t))
          (λ e c p. tt)
