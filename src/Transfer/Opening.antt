-- ===== src/Transfer/Opening.antt =====
-- How a session begins: the header on its way from the sender to the receiver.
use file_transfer_using_libp.Base.{
  ℕ, suc, ◌≡◌, refl, ◌∙◌, true, none, some, List, [], ◌++◌, arith, ok,
}
use file_transfer_using_libp.Protocol.State.{TransferState, is_allowed}
use file_transfer_using_libp.Protocol.Types.{MetaData}
use file_transfer_using_libp.Protocol.Stream.{Stream}
use file_transfer_using_libp.Protocol.File.{File, Disk, created}
use file_transfer_using_libp.Protocol.Session.{Session, role_receiver, new_session}
use file_transfer_using_libp.Protocol.Fsm.{run}
use file_transfer_using_libp.Protocol.Progress.{run_step}
use file_transfer_using_libp.Wire.{encode_header, send_header}
use file_transfer_using_libp.Wire.Reads.{write_accepted}
use file_transfer_using_libp.Wire.Header.{IsWireHeader, read_header-encode}
use file_transfer_using_libp.Crypto.{Crypto}
use file_transfer_using_libp.Controllers.Rules.{conn_eq}
use file_transfer_using_libp.Controllers.Sender.{
  sender_steps, step_sender_idle, step_sender_send_header, session_header,
}
use file_transfer_using_libp.Controllers.Sender.Success.{link, sending}
use file_transfer_using_libp.Controllers.Receiver.{
  receiver_steps, step_receiver_idle, step_receiver_receive_header, received_dir, store_header,
  create_output,
}
use file_transfer_using_libp.Controllers.Receiver.Success.{receiving}

module _ (C : Crypto) (s : Session) (f : File) (c : Stream)
    (accepts : (o : List ℕ) → c.accepts o ≡ true) where
  pub header_sent :
      (inc out e : List ℕ) (n : ℕ)
      → s.total_chunks ≡ suc n
      → step_sender_send_header (sending s f TransferState.send_header (link c inc out) e 0 none [])
        ≡ (
          ok TransferState.waiting_chunk_request,
          sending s f TransferState.send_header
              (link c inc (out ++ encode_header (session_header s)))
              e
              0
              none
              [],
        )
  unfolding step_sender_send_header send_header session_header
  header_sent inc out e n h =
      conn_eq (sending s f TransferState.send_header (link c inc out) e 0 none []) _ _ _ tt
        (link c inc (out ++ encode_header (session_header s)))
        (write_accepted (encode_header (session_header s)) (link c inc out) (accepts out))
      ∙ ground arith

  -- The first two rounds of a sender that has chunks to send.
  pub sends_header :
      (fuel : ℕ) (inc out e : List ℕ) (n : ℕ)
      → s.total_chunks ≡ suc n
      → run
          (suc (suc fuel))
          (sender_steps C)
          (sending s f TransferState.idle (link c inc out) e 0 none [])
        ≡ run fuel (sender_steps C) (
            sending s f TransferState.waiting_chunk_request
              (link c inc (out ++ encode_header (session_header s)))
              e
              0
              none
              [])
  unfolding sender_steps is_allowed step_sender_idle
  sends_header fuel inc out e n h =
      run_step (sender_steps C) (suc fuel) _ _ TransferState.idle TransferState.send_header
        step_sender_idle refl tt refl refl refl refl
      ∙ run_step (sender_steps C) fuel _ _ TransferState.send_header
          TransferState.waiting_chunk_request step_sender_send_header refl tt refl
          (header_sent inc out e n h) refl refl

module _ (C : Crypto) (c : Stream) (accepts : (o : List ℕ) → c.accepts o ≡ true) (e : List ℕ)
    (disk : Disk) where
  -- The session of a receiver that has taken over a header.
  abbrev pub informed : MetaData → Session
  informed h = record (new_session c role_receiver e disk) {
    file_id = h.file_id;
    file_name = h.name;
    file_size = h.file_size;
    total_chunks = h.reps;
  }

  -- The session of a receiver that waits for that header.
  abbrev pub informing : MetaData → List ℕ → List ℕ → Session
  informing h inc out =
      record (new_session (link c (encode_header h ++ inc) out) role_receiver e disk) {
        state = TransferState.receive_header;
      }

  pub header_read :
      (h : MetaData) (inc out : List ℕ) (f : File) (n : ℕ)
      → IsWireHeader h
      → h.reps ≡ suc n
      → disk.create (received_dir ++ h.name) ≡ some f
      → step_receiver_receive_header (informing h inc out) ≡ (
        ok TransferState.send_chunk_request,
        receiving
            (informed h)
            (created (received_dir ++ h.name) f)
            TransferState.receive_header
            (link c inc out)
            0
            none
            [],
      )
  unfolding step_receiver_receive_header store_header create_output new_session
  header_read h inc out f n wire some_chunks made =
      conn_eq (informing h inc out) _ _ _ h (link c inc out)
        (read_header-encode h inc (link c inc out) wire)
      ∙ rw made (ground arith)

  -- The first two rounds of a receiver that is to get chunks.
  pub receives_header :
      (fuel : ℕ) (h : MetaData) (inc out : List ℕ) (f : File) (n : ℕ)
      → IsWireHeader h
      → h.reps ≡ suc n
      → disk.create (received_dir ++ h.name) ≡ some f
      → run
          (suc (suc fuel))
          (receiver_steps C)
          (new_session (link c (encode_header h ++ inc) out) role_receiver e disk)
        ≡ run fuel (receiver_steps C) (
            receiving
              (informed h)
              (created (received_dir ++ h.name) f)
              TransferState.send_chunk_request
              (link c inc out)
              0
              none
              [])
  unfolding receiver_steps is_allowed new_session step_receiver_idle
  receives_header fuel h inc out f n wire some_chunks made =
      run_step (receiver_steps C) (suc fuel) _ _ TransferState.idle TransferState.receive_header
        step_receiver_idle refl tt refl refl refl refl
      ∙ run_step (receiver_steps C) fuel _ _ TransferState.receive_header
          TransferState.send_chunk_request step_receiver_receive_header refl tt refl
          (header_read h inc out f n wire some_chunks made) refl refl
