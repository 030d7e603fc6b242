-- ===== src/Tests/Sessions.antt =====
-- The sender, the receiver and both together, on a small file.
use file_transfer_using_libp.Base.{suc, ◌≡◌, refl, some, [], ◌∷◌, ◌++◌, ok, arith}
use file_transfer_using_libp.Protocol.File.{File, Disk}
use file_transfer_using_libp.Protocol.Session.{Session, new_session}
use file_transfer_using_libp.Protocol.Types.{MetaData}
use file_transfer_using_libp.Protocol.Fsm.{run}
use file_transfer_using_libp.Protocol.Progress.{Ended}
use file_transfer_using_libp.Controllers.Sender.{sender_steps, sender_session, send_file}
use file_transfer_using_libp.Controllers.Sender.Steps.{SenderAt, IsFresh}
use file_transfer_using_libp.Controllers.Sender.Rounds.{sender_run}
use file_transfer_using_libp.Controllers.Sender.Success.{link}
use file_transfer_using_libp.Controllers.Receiver.{receive_file, received_dir}
use file_transfer_using_libp.Controllers.Receiver.{step_receiver_verify_merkle}
use file_transfer_using_libp.Controllers.Exchange.{
  Acknowledged, step_receiver_verify_merkle-Acknowledged,
}
use file_transfer_using_libp.Wire.{encode_root}
use file_transfer_using_libp.Transfer.{drawn}
use file_transfer_using_libp.Transfer.Sending.{sender_rounds}
use file_transfer_using_libp.Transfer.Receiving.{receiver_rounds}
use file_transfer_using_libp.Transfer.Empty.{transfer_empty}
use file_transfer_using_libp.Base.{true}
use file_transfer_using_libp.Transfer.EndToEnd.{transfer_delivers}
use file_transfer_using_libp.Tests.{
  toy, toy-IsLawful, key_sevens, nonce_nines, open_conn, small_file, empty_file, small_disk,
}

transfer_delivers_example :
    (t : Session) × (t' : Session) × (send_file toy
        (suc (suc (sender_rounds [])))
        1700
        (47 ∷ [])
        (link open_conn t'.conn.outgoing [])
        (drawn ((key_sevens, nonce_nines) ∷ []) (3 ∷ []))
        small_disk
      ≡ ok (some (ok tt, t)))
    × (receive_file toy
          (suc (suc (receiver_rounds [])))
          (link open_conn t.conn.outgoing [])
          []
          small_disk
        ≡ some (ok tt, t'))
    × (t.conn.incoming ≡ [])
    × (t'.conn.incoming ≡ [])
    × (h : File) × (t'.file ≡ some h)
    × (h.path ≡ received_dir ++ small_file.name)
    × (h.content ≡ small_file.content)
transfer_delivers_example =
    transfer_delivers toy 1700 small_file empty_file (47 ∷ []) key_sevens nonce_nines (3 ∷ []) [] []
      open_conn open_conn small_disk small_disk toy-IsLawful (λ o. refl) (λ o. refl) refl refl refl
      refl (omega arith) (omega arith) refl (refl, refl) tt refl (omega arith)

abbrev one_chunk : MetaData
one_chunk = record { name = 97 ∷ []; file_size = 3; reps = 1; file_id = [] }

abbrev sender : Session
sender = sender_session toy small_file (5 ∷ []) one_chunk open_conn [] small_disk

sender-IsFresh : IsFresh sender
unfolding sender_session new_session
sender-IsFresh = record { first_chunk = refl; fits = omega arith; no_leaves = refl }

sender_run_example : Ended SenderAt (run 20 (sender_steps toy) sender)
unfolding sender_session new_session
sender_run_example = sender_run toy 20 sender refl sender-IsFresh (omega arith)

-- A receiver with one leaf, at its last step.
abbrev verifier : Session
verifier = record sender {
  conn = link open_conn (encode_root key_sevens) [];
  leaves = key_sevens ∷ [];
}

step_receiver_verify_merkle-Acknowledged_example :
    Acknowledged toy verifier (step_receiver_verify_merkle toy verifier)
step_receiver_verify_merkle-Acknowledged_example =
    step_receiver_verify_merkle-Acknowledged toy verifier (omega arith)

abbrev empty_disk : Disk
empty_disk = record { create = λ path. some empty_file; open_file = λ path. some empty_file }

transfer_empty_example :
    (t : Session) × (t' : Session) × (send_file toy 3 1700
        (47 ∷ [])
        (link open_conn [] [])
        []
        empty_disk
      ≡ ok (some (ok tt, t)))
    × (receive_file toy 3 (link open_conn t.conn.outgoing []) [] empty_disk ≡ some (ok tt, t'))
    × (t'.conn.incoming ≡ [])
    × (t'.conn.outgoing ≡ [])
    × (h : File) × (t'.file ≡ some h)
    × (h.path ≡ received_dir ++ empty_file.name)
    × (h.content ≡ [])
    × (h.closed ≡ true)
transfer_empty_example =
    transfer_empty toy 1700 empty_file empty_file (47 ∷ []) [] [] open_conn open_conn empty_disk
      empty_disk toy-IsLawful (λ o. refl) (λ o. refl) refl refl refl (omega arith) refl refl
