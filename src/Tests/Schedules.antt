-- ===== src/Tests/Schedules.antt =====
-- The two parties by turns, and each of them while bytes arrive.
use file_transfer_using_libp.Base.{
  ℕ, List, some, none, replicate, put_uint32, ◌≡◌, refl, [], ◌∷◌, ◌++◌, ok, arith,
}
use file_transfer_using_libp.Protocol.State.{TransferState, is_allowed}
use file_transfer_using_libp.Protocol.File.{File}
use file_transfer_using_libp.Protocol.Session.{Session, new_session, role_receiver}
use file_transfer_using_libp.Protocol.Progress.{round_step}
use file_transfer_using_libp.Protocol.Reached.{Reached, start, arrives, goes_on, more_came}
use file_transfer_using_libp.Controllers.Sender.{
  sender_steps, sender_session, step_sender_idle, open_session,
}
use file_transfer_using_libp.Controllers.Sender.Success.{link}
use file_transfer_using_libp.Controllers.Receiver.{receiver_steps, step_receiver_idle, received_dir}
use file_transfer_using_libp.Protocol.Types.{MetaData}
use file_transfer_using_libp.Wire.{encode_header}
use file_transfer_using_libp.Wire.Header.{IsWireHeader}
use file_transfer_using_libp.Protocol.File.{created}
use file_transfer_using_libp.Controllers.Receiver.Success.{receiving}
use file_transfer_using_libp.Transfer.Opening.{informed, header_read}
use file_transfer_using_libp.Transfer.{drawn}
use file_transfer_using_libp.Transfer.Each.{id_of, header_of, opened}
use file_transfer_using_libp.Transfer.Inevitable.{Inevitable, pair_up}
use file_transfer_using_libp.Transfer.Roots.{IsEnd}
use file_transfer_using_libp.Transfer.Schedule.{transfer_comes_to_end}
use file_transfer_using_libp.Transfer.Transcript.Moments.{HeardSoFar, receiver_moments}
use file_transfer_using_libp.Transfer.Told.Rounds.{with_id}
use file_transfer_using_libp.Transfer.Told.Moments.{SaidSoFar, sender_moments}
use file_transfer_using_libp.Controllers.Sender.{generate_file_id, prepare_metadata}
use file_transfer_using_libp.Tests.{
  toy, toy-IsLawful, key_sevens, nonce_nines, open_conn, small_file, empty_file, small_disk,
}

transfer_comes_to_end_example :
    (s : Session) × (h : File) × (open_session toy 1700
        (47 ∷ [])
        (link open_conn [] [])
        (drawn ((key_sevens, nonce_nines) ∷ []) [])
        small_disk
      ≡ ok s)
    × Inevitable toy
        (λ b. IsEnd b h)
        (pair_up s (new_session (link open_conn [] []) role_receiver [] small_disk))
    × (h.path ≡ received_dir ++ small_file.name)
    × (h.content ≡ small_file.content)
transfer_comes_to_end_example =
    transfer_comes_to_end toy 1700 small_file empty_file (47 ∷ []) key_sevens nonce_nines [] [] []
      open_conn open_conn small_disk small_disk toy-IsLawful (λ o. refl) (λ o. refl) refl refl refl
      refl refl (omega arith) (omega arith) refl (refl, refl) tt refl (omega arith)

abbrev fresh_receiver : Session
fresh_receiver = new_session (link open_conn [] []) role_receiver [] small_disk

-- The header of a file of one chunk comes after the first round of the receiver.
abbrev announced : MetaData
announced = record { name = 97 ∷ []; file_size = 3; reps = 1; file_id = replicate 32 5 }

announced-IsWireHeader : IsWireHeader announced
announced-IsWireHeader = record {
  reps_fits = omega arith;
  size_fits = omega arith;
  id_size = refl;
  name_fits = omega arith;
}

abbrev reading : Session
reading =
    more_came (encode_header announced ++ [])
      (record fresh_receiver { state = TransferState.receive_header })

reading-Reached : Reached (receiver_steps toy) fresh_receiver reading
unfolding receiver_steps is_allowed step_receiver_idle new_session encode_header put_uint32
reading-Reached = arrives _ (encode_header announced ++ []) (omega arith) (
    goes_on fresh_receiver _ start (
      round_step (receiver_steps toy) fresh_receiver TransferState.idle step_receiver_idle refl tt
        refl fresh_receiver TransferState.receive_header refl refl refl))

-- The receiver that has read it.
abbrev informed_receiver : Session
informed_receiver =
    receiving (informed toy open_conn (λ o. refl) [] small_disk announced)
      (created (received_dir ++ announced.name) empty_file) TransferState.send_chunk_request
      (link open_conn [] []) 0 none []

informed_receiver-Reached : Reached (receiver_steps toy) fresh_receiver informed_receiver
unfolding receiver_steps is_allowed new_session
informed_receiver-Reached = goes_on reading informed_receiver reading-Reached (
    round_step (receiver_steps toy) reading TransferState.receive_header _ refl tt refl _
      TransferState.send_chunk_request
      (header_read toy open_conn (λ o. refl) [] small_disk announced [] [] empty_file 0
        announced-IsWireHeader refl refl)
      refl refl)

receiver_moments_example :
    HeardSoFar toy (link open_conn [] []) TransferState.send_chunk_request informed_receiver
receiver_moments_example =
    receiver_moments toy (link open_conn [] []) [] small_disk informed_receiver tt
      informed_receiver-Reached

-- The sender of the small file, once it is opened, and after its first round.
abbrev opened_sender : Session
opened_sender =
    sender_session toy small_file (id_of toy 1700 small_file) (header_of toy 1700 small_file 1)
      open_conn [] small_disk

abbrev started_sender : Session
started_sender = record opened_sender { state = TransferState.send_header }

started_sender-Reached : Reached (sender_steps toy) opened_sender started_sender
unfolding sender_steps is_allowed step_sender_idle sender_session new_session
started_sender-Reached = goes_on opened_sender _ start (
    round_step (sender_steps toy) opened_sender TransferState.idle step_sender_idle refl tt refl
      opened_sender TransferState.send_header refl refl refl)

sender_moments_example :
    (f : File) × (small_disk.open_file (47 ∷ []) ≡ some f)
    × (file_id : List ℕ) × (generate_file_id toy 1700 f ≡ ok file_id)
    × (header : MetaData) × (prepare_metadata f ≡ ok header)
    × SaidSoFar toy (with_id header file_id) f [] open_conn TransferState.send_header started_sender
sender_moments_example =
    sender_moments toy 1700 (47 ∷ []) open_conn [] small_disk opened_sender started_sender tt
      (opened toy 1700 small_file (47 ∷ []) [] open_conn small_disk 1 refl refl refl)
      started_sender-Reached
