-- ===== src/Tests/Transcripts.antt =====
-- What the parties read and write, and whose file it is.
use file_transfer_using_libp.Base.{
  Error, ℕ, suc, ◌+◌, ◌*◌, ◌^◌, ◌≡◌, refl, Option, none, some, List, [], ◌∷◌, ◌++◌, ok, err, arith,
  sym, ap, ◌∙◌, append-nil, append_assoc, concat, All, IsByte, put_uint32, replicate, Result, ◌⊎◌,
}
use file_transfer_using_libp.Base
use file_transfer_using_libp.Protocol.File.{File}
use file_transfer_using_libp.Protocol.Session.{Session, new_session, role_receiver}
use file_transfer_using_libp.Protocol.Stream.{Stream}
use file_transfer_using_libp.Protocol.Types.{MetaData}
use file_transfer_using_libp.Protocol.Progress.{Ended}
use file_transfer_using_libp.Wire.{encode_header, encode_root}
use file_transfer_using_libp.Merkle.{build_tree, root_of_tree}
use file_transfer_using_libp.Controllers.Sender.{send_file}
use file_transfer_using_libp.Controllers.Receiver.{receive_file}
use file_transfer_using_libp.Controllers.Sender.Success.{link}
use file_transfer_using_libp.Transfer.{chunks_from, with_leaves, sender_says, Secrets}
use file_transfer_using_libp.Wire.{encode_chunk_response, encode_key_reveal, encode_final_ack}
use file_transfer_using_libp.Protocol.File.{created, close_file}
use file_transfer_using_libp.Protocol.State.{TransferState}
use file_transfer_using_libp.Protocol.Types.{Chunk}
use file_transfer_using_libp.Wire.Header.{IsWireHeader}
use file_transfer_using_libp.Crypto.{keccak}
use file_transfer_using_libp.Crypto.Chunks.{sealed_chunk}
use file_transfer_using_libp.Merkle.{generate_leaf}
use file_transfer_using_libp.Merkle.Shape.{root_single}
use file_transfer_using_libp.Controllers.Receiver.{received_dir}
use file_transfer_using_libp.Controllers.Receiver.Success.{receiving}
use file_transfer_using_libp.Transfer.{receiver_says}
use file_transfer_using_libp.Transfer.Opening.{informed, receives_header}
use file_transfer_using_libp.Transfer.Receiving.{filled, receiver_rounds, receives_every_chunk}
use file_transfer_using_libp.Transfer.Transcript.{sender_says-append}
use file_transfer_using_libp.Protocol.Paths.{
  sender_chunk, IsPath, IsTransfer, chunks, receiver_chunk, ending,
}
use file_transfer_using_libp.Protocol.Paths.Transfers.{paths_exact}
use file_transfer_using_libp.Protocol.Paths.Runs.{states}
use file_transfer_using_libp.Controllers.Receiver.{receiver_steps}
use file_transfer_using_libp.Controllers.Receiver.Path.Whole.{receive_file-states}
use file_transfer_using_libp.Base.{◌↔◌}
use file_transfer_using_libp.Protocol.Fsm.{run, round}
use file_transfer_using_libp.Protocol.State.{is_allowed, valid_transitions, to_string}
use file_transfer_using_libp.Protocol.Session.{transition}
use file_transfer_using_libp.Protocol.Stream.{write}
use file_transfer_using_libp.Wire.{send_header}
use file_transfer_using_libp.Controllers.Sender.{
  sender_steps, sender_session, step_sender_idle, step_sender_send_header, session_header,
}
use file_transfer_using_libp.Controllers.Sender.Steps.{IsFresh}
use file_transfer_using_libp.Controllers.Sender.Path.Whole.{sender_run-states}
use file_transfer_using_libp.Transfer.Transcript.Whole.{HeardAt, receive_file-HeardAt}
use file_transfer_using_libp.Transfer.Told.Whole.{SaidWell, send_file-SaidWell}
use file_transfer_using_libp.Transfer.Cut.{receive_file_cut}
use file_transfer_using_libp.Transfer.Tampering.{Forged, receive_file_authentic}
use file_transfer_using_libp.Tests.{
  toy, toy-IsLawful, key_sevens, nonce_nines, open_conn, small_file, empty_file, small_disk,
}

-- A peer that sends a wrong sentinel.
receive_file-HeardAt_example :
    Ended
      (HeardAt toy (link open_conn (90 ∷ 1 ∷ []) []))
      (receive_file toy (5 * 2 ^ 32 + 4) (link open_conn (90 ∷ 1 ∷ []) []) [] small_disk)
receive_file-HeardAt_example =
    receive_file-HeardAt toy (5 * 2 ^ 32 + 4) (link open_conn (90 ∷ 1 ∷ []) []) [] small_disk
      (omega arith) (omega arith)

-- A peer that asks for another chunk than the first.
abbrev impatient : Stream
impatient = link open_conn (2 ∷ 0 ∷ 0 ∷ 0 ∷ 7 ∷ []) []

send_file-SaidWell_example :
    SaidWell toy 1700 (some small_file) (key_sevens ++ nonce_nines) impatient (
      send_file toy
        (4 * 2 ^ 32 + 4)
        1700
        (47 ∷ [])
        impatient
        (key_sevens ++ nonce_nines)
        small_disk)
send_file-SaidWell_example =
    send_file-SaidWell toy (4 * 2 ^ 32 + 4) 1700 (47 ∷ []) impatient (key_sevens ++ nonce_nines)
      small_disk (omega arith) (omega arith)

-- A file of one chunk.
abbrev announced : MetaData
announced = record { name = 97 ∷ []; file_size = 3; reps = 1; file_id = replicate 32 5 }

announced-IsWireHeader : IsWireHeader announced
announced-IsWireHeader = record {
  reps_fits = omega arith;
  size_fits = omega arith;
  id_size = refl;
  name_fits = omega arith;
}

abbrev secrets : Secrets
secrets = (key_sevens, nonce_nines) ∷ []

abbrev sealed : List Chunk
sealed = chunks_from toy announced.file_id small_file.content 0 secrets

-- The root is the one leaf.
abbrev small_root : List ℕ
small_root = concat (with_leaves toy [] sealed)

root_of_sealed : root_of_tree (build_tree toy (with_leaves toy [] sealed)) ≡ ok small_root
root_of_sealed = root_single toy _ ∙ ap ok (sym (append-nil _))

small_root-length : Base.length small_root ≡ 32
unfolding generate_leaf keccak
small_root-length = refl

-- What a sender says for it.
abbrev said : List ℕ
said = encode_header announced ++ sender_says sealed (encode_root small_root ++ [])

abbrev feeding : Stream
feeding = link open_conn said []

-- The receiver that was fed with it.
abbrev fed : Session
fed =
    receiving (informed toy open_conn (λ o. refl) [] small_disk announced)
      (close_file (filled (created (received_dir ++ announced.name) empty_file) sealed)).1
      TransferState.finished (link open_conn [] ([] ++ receiver_says sealed encode_final_ack)) 0
      none (with_leaves toy [] sealed)

fed-received :
    receive_file toy (suc (suc (receiver_rounds []))) feeding [] small_disk ≡ some (ok tt, fed)
unfolding receive_file created
fed-received =
    receives_header toy open_conn (λ o. refl) [] small_disk (receiver_rounds []) announced
      (sender_says sealed (encode_root small_root ++ [])) [] empty_file 0 announced-IsWireHeader
      refl refl
    ∙ receives_every_chunk toy toy-IsLawful
        (informed toy open_conn (λ o. refl) [] small_disk announced) small_file.content open_conn
        (λ o. refl) [] (created (received_dir ++ announced.name) empty_file) [] [] key_sevens
        nonce_nines small_root 0 none [] refl (omega arith) (refl, refl) tt refl (omega arith)
        small_root-length root_of_sealed

said-split :
    said ≡ ((encode_header announced ++ sender_says sealed []) ++ encode_root small_root) ++ []
said-split =
    ap (λ xs. encode_header announced ++ xs)
      (sym (sender_says-append sealed (encode_root small_root) []))
    ∙ ap (λ xs. encode_header announced ++ (xs ++ []))
        (sym (sender_says-append sealed [] (encode_root small_root)))
    ∙ sym (
        append_assoc (encode_header announced) (sender_says sealed [] ++ encode_root small_root) [])
    ∙ ap (λ xs. xs ++ [])
        (sym
          (append_assoc (encode_header announced) (sender_says sealed []) (encode_root small_root)))

said-IsByte : All IsByte said
unfolding encode_header encode_root put_uint32 encode_chunk_response encode_key_reveal sealed_chunk
    keccak generate_leaf
said-IsByte = omega arith

receive_file_authentic_example :
    ((f : File) × (fed.file ≡ some f) × (f.content ≡ small_file.content))
    ⊎ Forged toy said [] small_root sealed
receive_file_authentic_example =
    receive_file_authentic toy (suc (suc (receiver_rounds []))) feeding [] small_disk
      announced.file_id small_file.content small_root
      (encode_header announced ++ sender_says sealed []) secrets fed toy-IsLawful said-IsByte refl
      ((refl, refl), tt) (omega arith) (omega arith) root_of_sealed fed-received refl said-split

-- The receiver is given only the header.
abbrev only_header : Stream
only_header = record feeding { incoming = encode_header announced }

receive_file_cut_example :
    (e : Error) × (t : Session) × (receive_file toy (5 * 2 ^ 32 + 4) only_header [] small_disk
      ≡ some (err e, t))
    × (t.state ≡ TransferState.error)
unfolding encode_root put_uint32 encode_chunk_response encode_key_reveal sealed_chunk
receive_file_cut_example =
    receive_file_cut toy (suc (suc (receiver_rounds []))) (5 * 2 ^ 32 + 4) feeding only_header [] []
      small_disk small_disk fed (sender_says sealed (encode_root small_root ++ [])) said-IsByte
      fed-received refl refl (omega arith) (omega arith)

-- A transfer of one chunk, as a receiver goes through it.
abbrev one_chunk_path : List TransferState
one_chunk_path = TransferState.receive_header ∷ chunks receiver_chunk 1 (ending 1)

paths_exact_example : IsPath TransferState.idle one_chunk_path ↔ IsTransfer one_chunk_path
paths_exact_example = paths_exact one_chunk_path

receive_file-states_example :
    states
      (suc (suc (receiver_rounds [])))
      (receiver_steps toy)
      (new_session feeding role_receiver [] small_disk)
    ≡ TransferState.receive_header ∷ chunks receiver_chunk 1 (ending 1)
receive_file-states_example =
    receive_file-states toy (suc (suc (receiver_rounds []))) feeding [] small_disk fed said-IsByte
      fed-received

-- A sender of an empty file, at its start and at its end.
abbrev no_chunks : MetaData
no_chunks = record { name = 97 ∷ []; file_size = 0; reps = 0; file_id = replicate 32 5 }

abbrev empty_sender : Session
empty_sender = sender_session toy empty_file no_chunks.file_id no_chunks open_conn [] small_disk

abbrev done_sender : Session
done_sender = record empty_sender {
  state = TransferState.finished;
  conn = link open_conn [] (encode_header no_chunks);
}

empty_sender-run : run 3 (sender_steps toy) empty_sender ≡ some (ok tt, done_sender)
unfolding run round sender_session new_session sender_steps step_sender_idle step_sender_send_header
    session_header send_header write transition is_allowed valid_transitions to_string
empty_sender-run = refl

empty_sender-IsFresh : (empty_sender.state ≡ TransferState.idle) × IsFresh empty_sender
unfolding sender_session new_session
empty_sender-IsFresh = (refl, record { first_chunk = refl; fits = omega arith; no_leaves = refl })

sender_run-states_example :
    states 3 (sender_steps toy) empty_sender
    ≡ TransferState.send_header ∷ chunks sender_chunk 0 (ending 0)
unfolding sender_session
sender_run-states_example =
    sender_run-states toy 3 empty_sender done_sender empty_sender-IsFresh.0 empty_sender-IsFresh.1
      empty_sender-run
