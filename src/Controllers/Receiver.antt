-- ===== src/Controllers/Receiver.antt =====
-- The receiver's half of Controllers/controllers.go.
pub mod Verified
pub mod Binding
pub mod Rounds
pub mod Start
pub mod Chunks
pub mod Finish
pub mod Invariant
pub mod Path
pub mod Success
use file_transfer_using_libp.Base.{
  ℕ, Bool, Option, none, some, List, [], ◌∷◌, ◌++◌, ◌==◌, if◌then◌else◌, list_eq, failed, wrap,
  wrap_at, mismatch, hash_mismatch, Result, ok, err, panic, Act, pure, throw, ◌>>=◌, ◌>>◌, wrapping,
}
use file_transfer_using_libp.Protocol.State.{
  TransferState, idle, receive_header, send_chunk_request, waiting_chunk_response,
  send_lottery_ticket, waiting_key_reveal, verify_chunk, verify_merkle, finished,
}
use file_transfer_using_libp.Protocol.Types.{MetaData, Chunk}
use file_transfer_using_libp.Protocol.Stream.{Stream}
use file_transfer_using_libp.Protocol.File.{
  File, Disk, created, write_file, close_file, on_some_file,
}
use file_transfer_using_libp.Protocol.Session.{Session, role_receiver, new_session}
use file_transfer_using_libp.Protocol.Fsm.{Step, StepTable, run}
use file_transfer_using_libp.Wire
use file_transfer_using_libp.Crypto.{Crypto, decrypt_and_check}
use file_transfer_using_libp.Merkle.{generate_leaf, build_tree, root_of_tree}
use file_transfer_using_libp.Controllers.Actions.{
  on_conn, on_file, on_pending, give, finish_chunk, closing,
}

-- "./received/"
abbrev pub received_dir : List ℕ
received_dir = b'.' ∷ b'/' ∷ b'r' ∷ b'e' ∷ b'c' ∷ b'e' ∷ b'i' ∷ b'v' ∷ b'e' ∷ b'd' ∷ b'/' ∷ []

-- `stepReceiverIdle`.
unfoldable pub step_receiver_idle : Step
step_receiver_idle = pure receive_header

-- The session takes over the fields of the header.
unfoldable pub store_header : MetaData → Act Session (Unit {0})
store_header h s = (
  ok tt,
  record s {
    file_id = h.file_id;
    file_name = h.name;
    file_size = h.file_size;
    total_chunks = h.reps;
  },
)

abbrev pub keep_created : List ℕ → Option File → Act Session (Unit {0})
keep_created path none s = (err (wrap "creating output file" (failed "create")), s)
keep_created path (some f) s = (ok tt, record s { file = some (created path f) })

-- `os.Create("./received/" + header.Name)`. The name is taken as the peer sent it.
unfoldable pub create_output : List ℕ → Act Session (Unit {0})
unfolding created
create_output name s = keep_created (received_dir ++ name) (s.disk.create (received_dir ++ name)) s

-- The last test of `stepReceiverReceiveHeader`: an empty file is closed at once.
abbrev pub begin_chunks : Step
begin_chunks s =
    if s.total_chunks == 0
    then (do wrapping (wrap "closing empty output file") (on_file close_file); pure finished) s
    else (ok send_chunk_request, s)

-- `stepReceiverReceiveHeader`.
unfoldable pub step_receiver_receive_header : Step
unfolding store_header create_output
step_receiver_receive_header = do
  header ← wrapping (wrap "reading header") (on_conn Wire.read_header)
  store_header header
  create_output header.name
  begin_chunks

-- `stepReceiverSendChunkRequest`.
unfoldable pub step_receiver_send_chunk_request : Step
step_receiver_send_chunk_request s =
    (do
      wrapping (wrap_at "sending chunk request" s.current_chunk)
          (on_conn (Wire.send_chunk_request s.current_chunk))
      pure waiting_chunk_response)
      s

abbrev pub keep_response : Chunk → Step
keep_response c s =
    if c.index == s.current_chunk
    then (ok send_lottery_ticket, record s { pending_chunk = some c })
    else (err (mismatch "out-of-order chunk response" s.current_chunk c.index), s)

-- `stepReceiverWaitChunkResponse`.
unfoldable pub step_receiver_wait_chunk_response : Step
step_receiver_wait_chunk_response s =
    (do
      c ←
          wrapping (wrap_at "reading chunk response" s.current_chunk)
            (on_conn (Wire.read_chunk_response s.file_id))
      keep_response c)
      s

-- `stepReceiverSendLotteryTicket`.
unfoldable pub step_receiver_send_lottery_ticket : Step
step_receiver_send_lottery_ticket s =
    (do
      wrapping (wrap_at "sending lottery ticket" s.current_chunk)
          (on_conn (Wire.send_lottery_ticket s.current_chunk))
      pure waiting_key_reveal)
      s

abbrev pub set_key : List ℕ → Act Chunk (Unit {0})
set_key key c = (ok tt, record c { key = key })

abbrev pub keep_key : ℕ × List ℕ → Step
keep_key (idx, key) s =
    if idx == s.current_chunk
    then (do on_pending (set_key key); pure verify_chunk) s
    else (err (mismatch "key reveal for wrong chunk" s.current_chunk idx), s)

-- `stepReceiverWaitKeyReveal`.
unfoldable pub step_receiver_wait_key_reveal : Step
step_receiver_wait_key_reveal s =
    (do
      revealed ←
          wrapping (wrap_at "reading key reveal" s.current_chunk) (on_conn Wire.read_key_reveal)
      keep_key revealed)
      s

abbrev pub compare_roots : List ℕ → List ℕ → Act Session (Unit {0})
compare_roots local_root remote_root s =
    if list_eq local_root remote_root
    then (ok tt, s)
    else (err (hash_mismatch "merkle root mismatch" local_root remote_root), s)

-- `stepReceiverVerifyMerkle` once the remote root is there, with the local root or the panic of
-- `Root_of_tree`.
abbrev pub check_root : Result (List ℕ) → List ℕ → Step
check_root r remote_root = do
  local_root ← give r
  compare_roots local_root remote_root
  wrapping (wrap "sending final ack") (on_conn Wire.send_final_ack)
  pure finished

module _ (C : Crypto) where
  abbrev pub set_leaf : Act Chunk (List ℕ)
  set_leaf c = (ok (generate_leaf C c), record c { leaf = generate_leaf C c })

  abbrev pub append_leaf : List ℕ → Act Session (Unit {0})
  append_leaf leaf s = (ok tt, record s { leaves = s.leaves ++ (leaf ∷ []) })

  -- The rest of `stepReceiverVerifyChunk` once the plaintext is there.
  abbrev pub store_chunk : List ℕ → Step
  store_chunk plaintext s =
      (do
        leaf ← on_pending set_leaf
        append_leaf leaf
        wrapping (wrap_at "writing chunk to disk" s.current_chunk) (on_file (write_file plaintext))
        finish_chunk send_chunk_request)
        s

  -- `stepReceiverVerifyChunk`.
  unfoldable pub step_receiver_verify_chunk : Step
  step_receiver_verify_chunk = do
    plaintext ← on_pending (decrypt_and_check C)
    store_chunk plaintext

  -- `stepReceiverVerifyMerkle`.
  unfoldable pub step_receiver_verify_merkle : Step
  step_receiver_verify_merkle s =
      closing
        (do
          remote_root ← wrapping (wrap "reading merkle root") (on_conn Wire.read_root)
          check_root (root_of_tree (build_tree C s.leaves)) remote_root)
        s

  -- `receiverSteps`.
  unfoldable pub receiver_steps : StepTable
  receiver_steps idle = some step_receiver_idle
  receiver_steps receive_header = some step_receiver_receive_header
  receiver_steps send_chunk_request = some step_receiver_send_chunk_request
  receiver_steps waiting_chunk_response = some step_receiver_wait_chunk_response
  receiver_steps send_lottery_ticket = some step_receiver_send_lottery_ticket
  receiver_steps waiting_key_reveal = some step_receiver_wait_key_reveal
  receiver_steps verify_chunk = some step_receiver_verify_chunk
  receiver_steps verify_merkle = some step_receiver_verify_merkle
  receiver_steps _ = none

  -- `RecieveFile`, with a bound on the rounds of `Run`.
  unfoldable pub receive_file : ℕ → Stream → List ℕ → Disk → Option (Result (Unit {0}) × Session)
  receive_file fuel conn entropy disk =
      run fuel receiver_steps (new_session conn role_receiver entropy disk)
