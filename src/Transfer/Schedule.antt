-- ===== src/Transfer/Schedule.antt =====
-- The schedule of a whole transfer, from the two sessions as `SendFile` and `RecieveFile` open them.
use file_transfer_using_libp.Base.{
  ℕ, suc, ◌+◌, ◌-◌, ◌*◌, ◌/◌, ◌^◌, ◌≤◌, ◌<◌, ◌≡◌, refl, sym, ap, ◌∙◌, subst, true, false, Option,
  none, some, List, [], ◌∷◌, ◌++◌, append-nil, All, IsU32, u32, arith, Result, ok, eof,
}
use file_transfer_using_libp.Base
use file_transfer_using_libp.Protocol.State.{TransferState, is_allowed}
use file_transfer_using_libp.Protocol.Types.{chunk_size}
use file_transfer_using_libp.Protocol.Stream.{Stream}
use file_transfer_using_libp.Protocol.File.{File, Disk, created, close_file}
use file_transfer_using_libp.Protocol.Session.{Session, role_receiver, new_session}
use file_transfer_using_libp.Wire.{encode_header}
use file_transfer_using_libp.Wire.Header.{IsWireHeader}
use file_transfer_using_libp.Crypto.{Crypto, IsLawful, keccak}
use file_transfer_using_libp.Merkle.Shape.{root_of_tree-build_tree}
use file_transfer_using_libp.Controllers.Sender.{
  sender_steps, step_sender_idle, session_header, sender_session, open_session,
}
use file_transfer_using_libp.Controllers.Sender.Success.{link, sending}
use file_transfer_using_libp.Controllers.Receiver.{receiver_steps, step_receiver_idle, received_dir}
use file_transfer_using_libp.Controllers.Receiver.Success.{receiving}
use file_transfer_using_libp.Transfer.{Secrets, IsSecret, drawn, with_leaves}
use file_transfer_using_libp.Transfer.Receiving.{filled}
use file_transfer_using_libp.Transfer.Content.{
  close_file-filled, close_file-filled_path, with_leaves-IsHash, with_leaves-some, length-root,
}
use file_transfer_using_libp.Transfer.Opening.{informed, header_sent, header_read}
use file_transfer_using_libp.Transfer.Each.{id_of, header_of, opened, pieces}
use file_transfer_using_libp.Transfer.Turns.{System, Party, party}
use file_transfer_using_libp.Transfer.Parties.{OneTurn, one_round}
use file_transfer_using_libp.Transfer.Inevitable.{
  Inevitable, pair_up, together, sender_goes, receiver_goes, either_goes,
}
use file_transfer_using_libp.Transfer.Waiting.{chunk_request-Quiet, receive_header-Quiet}
use file_transfer_using_libp.Transfer.Roots.{IsEnd}
use file_transfer_using_libp.Transfer.Liveness.{every_chunk-Ends}

module _ (C : Crypto) (s : Session) (f g : File) (e e' : List ℕ) (n : ℕ) (c d : Stream)
    (disk : Disk) (sends : (o : List ℕ) → c.accepts o ≡ true)
    (answers : (o : List ℕ) → d.accepts o ≡ true) (wire : IsWireHeader (session_header s))
    (some_chunks : s.total_chunks ≡ suc n)
    (made : disk.create (received_dir ++ s.file_name) ≡ some g) where
  abbrev head : List ℕ
  head = encode_header (session_header s)

  -- The sender in its first states, and the receiver with those bytes to read.
  abbrev idle_sender : Party
  idle_sender = party (sending s f TransferState.idle (link c [] []) e 0 none []) []

  abbrev about_to_send : Party
  about_to_send = party (sending s f TransferState.send_header (link c [] []) e 0 none []) []

  abbrev asked : Party
  asked = party (sending s f TransferState.waiting_chunk_request (link c [] head) e 0 none []) []

  abbrev idle_receiver : List ℕ → Session
  idle_receiver inc = new_session (link d inc []) role_receiver e' disk

  abbrev at_header : List ℕ → Party
  at_header inc = party (record (idle_receiver inc) { state = TransferState.receive_header }) []

  abbrev informed_receiver : Session
  informed_receiver =
      receiving (informed C d answers e' disk (session_header s))
        (created (received_dir ++ s.file_name) g) TransferState.send_chunk_request (link d [] []) 0
        none []

  starts_sending : OneTurn (sender_steps C) idle_sender about_to_send []
  unfolding sender_steps is_allowed step_sender_idle
  starts_sending =
      one_round (sender_steps C) _ [] TransferState.idle step_sender_idle refl tt refl _
        TransferState.send_header [] refl refl refl refl

  sends_head : OneTurn (sender_steps C) about_to_send asked head
  unfolding sender_steps is_allowed
  sends_head =
      one_round (sender_steps C) _ [] TransferState.send_header _ refl tt refl _
        TransferState.waiting_chunk_request head (header_sent C s f c sends [] [] e n some_chunks)
        refl refl refl

  starts_reading :
      (inc : List ℕ) → OneTurn (receiver_steps C) (party (idle_receiver inc) []) (at_header inc) []
  unfolding receiver_steps is_allowed new_session step_receiver_idle
  starts_reading inc =
      one_round (receiver_steps C) _ [] TransferState.idle step_receiver_idle refl tt refl _
        TransferState.receive_header [] refl refl refl refl

  reads_head : OneTurn (receiver_steps C) (at_header (head ++ [])) (party informed_receiver []) []
  unfolding receiver_steps is_allowed new_session session_header
  reads_head =
      one_round (receiver_steps C) _ [] TransferState.receive_header _ refl tt refl _
        TransferState.send_chunk_request []
        (header_read C d answers e' disk (session_header s) [] [] g n wire some_chunks made) refl
        refl refl

  module _ (P : System → Type 0)
      (rest : Inevitable C P (together asked (party informed_receiver []))) where
    unread : Inevitable C P (together asked (at_header (head ++ [])))
    unread =
        receiver_goes C P asked (at_header (head ++ [])) (party informed_receiver []) [] []
          (chunk_request-Quiet C s f c head e 0 none []) reads_head refl rest

    unsent : Inevitable C P (together about_to_send (at_header []))
    unfolding new_session
    unsent =
        sender_goes C P about_to_send asked (at_header []) head (head ++ []) sends_head
          (receive_header-Quiet C d e' disk) (append-nil head) unread

    unstarted : Inevitable C P (together about_to_send (party (idle_receiver []) []))
    unfolding new_session
    unstarted =
        either_goes C P about_to_send asked (party (idle_receiver []) []) (at_header []) head []
          (head ++ []) [] sends_head (starts_reading []) (append-nil head) refl
          (receiver_goes C P asked (party (idle_receiver (head ++ [])) []) (at_header (head ++ []))
            [] [] (chunk_request-Quiet C s f c head e 0 none []) (starts_reading (head ++ [])) refl
            unread)
          unsent

    -- The turns of the header, from two sessions that are still idle.
    header_turns : Inevitable C P (together idle_sender (party (idle_receiver []) []))
    unfolding new_session
    header_turns =
        either_goes C P idle_sender about_to_send (party (idle_receiver []) []) (at_header []) [] []
          [] [] starts_sending (starts_reading []) refl refl unstarted
          (sender_goes C P idle_sender about_to_send (at_header []) [] [] starts_sending
            (receive_header-Quiet C d e' disk) refl unsent)

-- Every order of turns comes to the end. The file opens, is not closed, has a `Stat`, can be read, has
-- less than 4 GiB, a name with a 32-bit length, and `1 + length rest` chunks; the receiver can create the
-- output, which has room; both connections accept every write, and the sender's reports the end of the
-- stream where it has no more bytes; the sender's randomness starts with a key and a nonce for each
-- chunk; the cryptography keeps its documented laws. Then the sender's session is opened, and from there
-- on it is inevitable that both sessions are finished and have read all that was written, and that the
-- receiver's file in `./received/` has the content of the sender's: in whichever order the two parties
-- take their turns, a turn that changes anything comes nearer to it, and there always is such a turn.
pub transfer_comes_to_end :
    (C : Crypto) (now : ℕ) (f g : File) (path key nonce e e' : List ℕ) (rest : Secrets)
    (c d : Stream) (disk disk' : Disk)
    → IsLawful C
    → ((o : List ℕ) → c.accepts o ≡ true)
    → ((o : List ℕ) → d.accepts o ≡ true)
    → c.ending ≡ eof
    → disk.open_file path ≡ some f
    → f.stats ≡ true
    → f.closed ≡ false
    → f.readable ≡ true
    → IsU32 (Base.length f.content)
    → IsU32 (Base.length f.name)
    → (Base.length f.content + chunk_size - 1) / chunk_size ≡ suc (Base.length rest)
    → IsSecret (key, nonce)
    → All IsSecret rest
    → disk'.create (received_dir ++ f.name) ≡ some g
    → Base.length f.content ≤ g.room
    → (s : Session) × (h : File) × (open_session C now path
          (link c [] [])
          (drawn ((key, nonce) ∷ rest) e)
          disk
        ≡ ok s)
      × Inevitable C
          (λ b. IsEnd b h)
          (pair_up s (new_session (link d [] []) role_receiver e' disk'))
      × (h.path ≡ received_dir ++ f.name)
      × (h.content ≡ f.content)
unfolding sender_session new_session session_header created keccak
transfer_comes_to_end C now f g path key nonce e e' rest c d disk disk' law sends answers ends found
      stats open' readable size name count hk hs made room =
    let ss = (key, nonce) ∷ rest in
    let n = Base.length rest in
    let ks = pieces C now f ss in
    let s =
      sender_session C f (id_of C now f) (header_of C now f (suc n)) (link c [] []) (drawn ss e)
        disk in
    let wire : IsWireHeader (session_header s) = record {
      reps_fits = omega arith;
      size_fits = omega arith;
      id_size = law.length-keccak256 _;
      name_fits = name;
    } in
    let (root, h) =
      root_of_tree-build_tree C (with_leaves C [] ks)
        (with_leaves-some C law [] ks (omega arith)) in
    let size' =
      length-root C law (with_leaves C [] ks) root (with_leaves-some C law [] ks (omega arith))
        (with_leaves-IsHash C law [] ks tt) h in
    let out = created (received_dir ++ f.name) g in
    let comes =
      every_chunk-Ends C law s (informed C d answers e' disk' (session_header s)) f c d sends
        answers open' readable rest out (encode_header (session_header s)) [] key nonce e root 0
        none none [] (omega arith) (omega arith) hk hs ends refl (omega arith) size' h in
    (
      s,
      (close_file (filled out ks)).1,
      opened C now f path (drawn ss e) (link c [] []) disk (suc n) found stats (omega arith),
      header_turns C s f g (drawn ss e) e' n c d disk' sends answers wire refl made _ comes,
      close_file-filled_path out ks,
      close_file-filled C (id_of C now f) f.content ss out refl (omega arith),
    )
