-- ===== src/Transfer/Empty.antt =====
-- The transfer of an empty file: a header, and nothing else.
use file_transfer_using_libp.Base.{
  ℕ, suc, ◌+◌, ◌-◌, ◌/◌, ◌≡◌, refl, sym, ap, ◌∙◌, true, false, Option, none, some, List, [], ◌∷◌,
  ◌++◌, append-nil, IsU32, u32, arith, ok, wrap, on_error, and_then, pure, ◌==◌, if◌then◌else◌,
}
use file_transfer_using_libp.Base
use file_transfer_using_libp.Protocol.State.{TransferState, is_allowed}
use file_transfer_using_libp.Protocol.Types.{MetaData, chunk_size}
use file_transfer_using_libp.Protocol.Stream.{Stream}
use file_transfer_using_libp.Protocol.File.{File, Disk, created, close_file, keep_file}
use file_transfer_using_libp.Protocol.Session.{Session, role_receiver, new_session}
use file_transfer_using_libp.Protocol.Fsm.{run}
use file_transfer_using_libp.Protocol.Progress.{run_step, run_finished}
use file_transfer_using_libp.Wire.{encode_header, send_header}
use file_transfer_using_libp.Wire.Reads.{write_accepted}
use file_transfer_using_libp.Wire.Header.{IsWireHeader, read_header-encode}
use file_transfer_using_libp.Crypto.{Crypto, IsLawful, keccak}
use file_transfer_using_libp.Controllers.Actions.{on_file}
use file_transfer_using_libp.Controllers.Rules.{conn_eq, file_eq}
use file_transfer_using_libp.Controllers.Sender.{
  sender_steps, step_sender_idle, step_sender_send_header, session_header, sender_session,
  send_file, run_prepared, close_sent,
}
use file_transfer_using_libp.Controllers.Sender.Success.{link, sending}
use file_transfer_using_libp.Controllers.Receiver.{
  receiver_steps, step_receiver_idle, step_receiver_receive_header, receive_file, received_dir,
  store_header, create_output, begin_chunks,
}
use file_transfer_using_libp.Controllers.Receiver.Success.{receiving}
use file_transfer_using_libp.Transfer.Opening.{informed, informing}
use file_transfer_using_libp.Transfer.Each.{header_of, opened}

module _ (C : Crypto) (s : Session) (f : File) (c : Stream)
    (accepts : (o : List ℕ) → c.accepts o ≡ true) (e : List ℕ) (nothing : s.total_chunks ≡ 0) where
  only_header_sent :
      step_sender_send_header (sending s f TransferState.send_header (link c [] []) e 0 none []) ≡ (
        ok TransferState.finished,
        sending s f TransferState.send_header
            (link c [] (encode_header (session_header s)))
            e
            0
            none
            [],
      )
  unfolding step_sender_send_header send_header session_header
  only_header_sent =
      conn_eq (sending s f TransferState.send_header (link c [] []) e 0 none []) _ _ _ tt
        (link c [] (encode_header (session_header s)))
        (write_accepted (encode_header (session_header s)) (link c [] []) (accepts []))
      ∙ ground arith

  sends_only_header :
      run 3 (sender_steps C) (sending s f TransferState.idle (link c [] []) e 0 none [])
      ≡ some (
        ok tt,
        sending s f TransferState.finished
            (link c [] (encode_header (session_header s)))
            e
            0
            none
            [],
      )
  unfolding sender_steps is_allowed step_sender_idle
  sends_only_header =
      run_step (sender_steps C) 2 _ _ TransferState.idle TransferState.send_header step_sender_idle
        refl tt refl refl refl refl
      ∙ run_step (sender_steps C) 1 _ _ TransferState.send_header TransferState.finished
          step_sender_send_header refl tt refl only_header_sent refl refl
      ∙ run_finished (sender_steps C) 0 _ refl

module _ (C : Crypto) (c : Stream) (accepts : (o : List ℕ) → c.accepts o ≡ true) (e : List ℕ)
    (disk : Disk) (h : MetaData) (f : File) (wire : IsWireHeader h) (nothing : h.reps ≡ 0)
    (made : disk.create (received_dir ++ h.name) ≡ some f) (flushes : f.flushes ≡ true) where
  -- The output file, made and closed.
  abbrev pub shut : File
  shut = record (created (received_dir ++ h.name) f) { closed = true }

  close_created : close_file (created (received_dir ++ h.name) f) ≡ (ok tt, shut)
  unfolding close_file created
  close_created =
      ap (λ b. if b then (ok tt, shut) else (Base.err (Base.failed "close"), shut)) flushes

  closed_empty :
      let s =
        receiving
          (informed C c accepts e disk h)
          (created (received_dir ++ h.name) f)
          TransferState.receive_header
          (link c [] [])
          0
          none
          [] in
      begin_chunks s ≡ (
        ok TransferState.finished,
        receiving
            (informed C c accepts e disk h)
            shut
            TransferState.receive_header
            (link c [] [])
            0
            none
            [],
      )
  closed_empty =
      let s =
        receiving (informed C c accepts e disk h) (created (received_dir ++ h.name) f)
          TransferState.receive_header (link c [] []) 0 none [] in
      let close = on_error (wrap "closing empty output file") (on_file close_file s) in
      ap
        (λ n.
          if n == 0
          then and_then close (λ _. pure TransferState.finished)
          else (ok TransferState.send_chunk_request, s))
        nothing
      ∙ file_eq s (wrap "closing empty output file") _ (λ _. pure TransferState.finished) tt
          (some shut) (ap keep_file close_created)

  only_header_read : step_receiver_receive_header (informing C c accepts e disk h [] []) ≡ (
    ok TransferState.finished,
    receiving
        (informed C c accepts e disk h)
        shut
        TransferState.receive_header
        (link c [] [])
        0
        none
        [],
  )
  unfolding step_receiver_receive_header store_header create_output new_session
  only_header_read =
      conn_eq (informing C c accepts e disk h [] []) _ _ _ h (link c [] [])
        (read_header-encode h [] (link c [] []) wire)
      ∙ rw made closed_empty

  receives_only_header :
      run 3
        (receiver_steps C)
        (new_session (link c (encode_header h ++ []) []) role_receiver e disk)
      ≡ some (
        ok tt,
        receiving
            (informed C c accepts e disk h)
            shut
            TransferState.finished
            (link c [] [])
            0
            none
            [],
      )
  unfolding receiver_steps is_allowed new_session step_receiver_idle
  receives_only_header =
      run_step (receiver_steps C) 2 _ _ TransferState.idle TransferState.receive_header
        step_receiver_idle refl tt refl refl refl refl
      ∙ run_step (receiver_steps C) 1 _ _ TransferState.receive_header TransferState.finished
          step_receiver_receive_header refl tt refl only_header_read refl refl
      ∙ run_finished (receiver_steps C) 0 _ refl

-- The transfer of an empty file that opens, has a `Stat` and a name with a 32-bit length, where the
-- cryptography keeps its documented laws, both connections accept every write, the receiver can
-- create the output, and its `Close` succeeds: `SendFile`, given nothing to read, returns no error;
-- `RecieveFile` reads all that it wrote, writes nothing and returns no error, and its file in
-- `./received/` is empty and closed.
pub transfer_empty :
    (C : Crypto) (now : ℕ) (f g : File) (path e e' : List ℕ) (c d : Stream) (disk disk' : Disk)
    → IsLawful C
    → ((o : List ℕ) → c.accepts o ≡ true)
    → ((o : List ℕ) → d.accepts o ≡ true)
    → disk.open_file path ≡ some f
    → f.stats ≡ true
    → f.content ≡ []
    → IsU32 (Base.length f.name)
    → disk'.create (received_dir ++ f.name) ≡ some g
    → g.flushes ≡ true
    → (t : Session) × (t' : Session) × (send_file C 3 now path (link c [] []) e disk
        ≡ ok (some (ok tt, t)))
      × (receive_file C 3 (link d t.conn.outgoing []) e' disk' ≡ some (ok tt, t'))
      × (t'.conn.incoming ≡ [])
      × (t'.conn.outgoing ≡ [])
      × (h : File) × (t'.file ≡ some h)
      × (h.path ≡ received_dir ++ f.name)
      × (h.content ≡ [])
      × (h.closed ≡ true)
unfolding send_file receive_file sender_session session_header new_session created keccak
transfer_empty C now f g path e e' c d disk disk' law sends answers found stats empty name made
      flushes =
    let h = header_of C now f 0 in
    let wire : IsWireHeader h = record {
      reps_fits = omega arith;
      size_fits = omega arith;
      id_size = law.length-keccak256 _;
      name_fits = name;
    } in
    let count : u32 ((Base.length f.content + chunk_size - 1) / chunk_size) ≡ 0 =
      ap (λ xs. u32 ((Base.length xs + chunk_size - 1) / chunk_size)) empty in
    let s = sender_session C f h.file_id h (link c [] []) e disk in
    let same : encode_header (session_header s) ≡ encode_header h ++ [] =
      ap (λ z. encode_header (record h { file_size = z }))
        (let e : u32 (u32 (Base.length f.content)) ≡ u32 (Base.length f.content) = omega arith in e)
      ∙ sym (append-nil (encode_header h)) in
    (
      _,
      _,
      ap (run_prepared C 3) (opened C now f path e (link c [] []) disk 0 found stats count)
          ∙ ap (λ r. ok (close_sent C r)) (sends_only_header C s f c sends e refl),
      ap (λ xs. receive_file C 3 (link d xs []) e' disk') same
          ∙ receives_only_header C d answers e' disk' h g wire refl made flushes,
      refl,
      refl,
      shut C d answers e' disk' h g wire refl made flushes,
      refl,
      refl,
      refl,
      refl,
    )
