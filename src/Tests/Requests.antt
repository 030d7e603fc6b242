-- ===== src/Tests/Requests.antt =====
-- A client and a server, on a small file.
use file_transfer_using_libp.Base.{
  suc, ◌+◌, ◌*◌, ◌^◌, ◌≡◌, refl, some, none, [], ◌∷◌, ◌++◌, ok, fatal, Error, arith, codes,
}
use file_transfer_using_libp.Protocol.Stream.{Stream}
use file_transfer_using_libp.Protocol.File.{File, Disk}
use file_transfer_using_libp.Protocol.Session.{Session}
use file_transfer_using_libp.Controllers.Sender.Success.{link}
use file_transfer_using_libp.Controllers.Receiver.{received_dir}
use file_transfer_using_libp.Wire.Reads.{feed}
use file_transfer_using_libp.Transfer.{drawn}
use file_transfer_using_libp.Transfer.Sending.{sender_rounds}
use file_transfer_using_libp.Transfer.Receiving.{receiver_rounds}
use file_transfer_using_libp.Client
use file_transfer_using_libp.Client.{encode_request, transfer, client_main}
use file_transfer_using_libp.Server
use file_transfer_using_libp.Server.{handle_stream, read_request}
use file_transfer_using_libp.Server.Requests.{post, read_request-encode}
use file_transfer_using_libp.Server.Outcomes.{HandledWell, handle_stream-HandledWell}
use file_transfer_using_libp.Server.Delivery.{get_missing_file, get_delivers, post_delivers}
use file_transfer_using_libp.Tests.{
  toy, toy-IsLawful, key_sevens, nonce_nines, open_conn, small_file, empty_file, small_disk,
}

get_delivers_example :
    (t : Session) × (t' : Session) × (handle_stream toy
        (suc (suc (sender_rounds [])))
        1700
        (drawn ((key_sevens, nonce_nines) ∷ []) [])
        small_disk
        (link open_conn t'.conn.outgoing [])
      ≡ ok (Server.sent (some (ok tt, t))))
    × (transfer toy
          (suc (suc (receiver_rounds [])))
          1800
          []
          small_disk
          (codes "GET")
          (47 ∷ [])
          (link open_conn t.conn.outgoing [])
        ≡ ok (Client.received (some (ok tt, t'))))
    × (t.conn.incoming ≡ [])
    × (t'.conn.incoming ≡ [])
    × (h : File) × (t'.file ≡ some h)
    × (h.path ≡ received_dir ++ small_file.name)
    × (h.content ≡ small_file.content)
get_delivers_example =
    get_delivers toy 1700 1800 small_file empty_file (47 ∷ []) key_sevens nonce_nines [] [] []
      open_conn open_conn small_disk small_disk toy-IsLawful (λ o. refl) (λ o. refl) refl refl refl
      refl (omega arith) (omega arith) refl (refl, refl) tt refl (omega arith) (omega arith)

post_delivers_example :
    (t : Session) × (t' : Session) × (transfer toy
        (suc (suc (sender_rounds [])))
        1700
        (drawn ((key_sevens, nonce_nines) ∷ []) [])
        small_disk
        (codes "POST")
        (47 ∷ [])
        (link open_conn t'.conn.outgoing [])
      ≡ ok (Client.sent (some (ok tt, t))))
    × (handle_stream toy
          (suc (suc (receiver_rounds [])))
          1800
          []
          small_disk
          (link open_conn t.conn.outgoing [])
        ≡ ok (Server.received (some (ok tt, t'))))
    × (t.conn.incoming ≡ [])
    × (t'.conn.incoming ≡ [])
    × (h : File) × (t'.file ≡ some h)
    × (h.path ≡ received_dir ++ small_file.name)
    × (h.content ≡ small_file.content)
post_delivers_example =
    post_delivers toy 1700 1800 small_file empty_file (47 ∷ []) key_sevens nonce_nines [] [] []
      open_conn open_conn small_disk small_disk toy-IsLawful (λ o. refl) (λ o. refl) refl refl refl
      refl (omega arith) (omega arith) refl (refl, refl) tt refl (omega arith) (omega arith)

-- A file system on which no file can be opened.
abbrev bare_disk : Disk
bare_disk = record { create = λ path. none; open_file = λ path. none }

get_missing_file_example :
    (e : Error) × (handle_stream toy 9 1700 [] bare_disk
        (link open_conn (encode_request (47 ∷ 120 ∷ []) (codes "GET") ++ (1 ∷ [])) [])
      ≡ fatal e)
get_missing_file_example =
    get_missing_file toy 9 1700 [] bare_disk (47 ∷ 120 ∷ []) (1 ∷ []) open_conn (omega arith) refl

read_request-encode_example :
    read_request (feed open_conn (encode_request (47 ∷ 120 ∷ []) (codes "POST") ++ (1 ∷ [])))
    ≡ (ok (1, 47 ∷ 120 ∷ []), feed open_conn (1 ∷ []))
read_request-encode_example =
    read_request-encode post (47 ∷ 120 ∷ []) (1 ∷ []) open_conn (omega arith)

-- A peer whose request breaks off in the path.
abbrev cut_request : Stream
cut_request = link open_conn (0 ∷ 0 ∷ 0 ∷ 0 ∷ 0 ∷ 0 ∷ 0 ∷ 9 ∷ 47 ∷ []) []

handle_stream-HandledWell_example :
    HandledWell toy 1700 [] small_disk cut_request
      (handle_stream toy (5 * 2 ^ 32 + 4) 1700 [] small_disk cut_request)
handle_stream-HandledWell_example =
    handle_stream-HandledWell toy (5 * 2 ^ 32 + 4) 1700 [] small_disk cut_request (omega arith)
      (omega arith)
