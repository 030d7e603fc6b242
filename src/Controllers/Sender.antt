-- ===== src/Controllers/Sender.antt =====
-- The sender's half of Controllers/controllers.go.
pub mod Steps
pub mod Rounds
pub mod Success
pub mod Finish
pub mod Invariant
pub mod Path
use file_transfer_using_libp.Base.{
  ℕ, ◌+◌, ◌-◌, ◌/◌, Option, none, some, List, [], ◌∷◌, ◌++◌, length, ◌==◌, if◌then◌else◌, u32,
  put_uint64, failed, wrap, wrap_at, mismatch, Error, Result, ok, err, panic, fatal, Act, pure,
  throw, ◌>>=◌, ◌>>◌, wrapping,
}
use file_transfer_using_libp.Protocol.State.{
  TransferState, idle, send_header, waiting_chunk_request, send_chunk_response,
  waiting_lottery_ticket, send_key_reveal, verify_merkle, finished,
}
use file_transfer_using_libp.Protocol.Types.{MetaData, Chunk, chunk_size}
use file_transfer_using_libp.Protocol.Stream.{Stream}
use file_transfer_using_libp.Protocol.File.{File, Disk, close_file}
use file_transfer_using_libp.Protocol.Session.{Session, role_sender, new_session}
use file_transfer_using_libp.Protocol.Fsm.{Step, StepTable, run}
use file_transfer_using_libp.Wire
use file_transfer_using_libp.Crypto.{Crypto, keccak, build_and_encrypt_chunk}
use file_transfer_using_libp.Merkle.{generate_leaf, build_tree, root_of_tree}
use file_transfer_using_libp.Controllers.Actions.{
  on_conn, on_entropy, on_file, give, read_chunk_plaintext, finish_chunk, and_close,
}

-- `PrepareMetadata`. The size is read before the error of `Stat` is looked at, so that a failed
-- `Stat` is a panic.
unfoldable pub prepare_metadata : File → Result MetaData
prepare_metadata f =
    if f.stats
    then ok (record {
      name = f.name;
      file_size = u32 (length f.content);
      reps = u32 ((length f.content + chunk_size - 1) / chunk_size);
      file_id = [];
    })
    else panic

-- The header that the session of a sender sends.
unfoldable pub session_header : Session → MetaData
session_header s = record {
  name = s.file_name;
  file_size = u32 s.file_size;
  reps = s.total_chunks;
  file_id = s.file_id;
}

-- `stepSenderIdle`.
unfoldable pub step_sender_idle : Step
step_sender_idle = pure send_header

-- `stepSenderSendHeader`.
unfoldable pub step_sender_send_header : Step
unfolding session_header
step_sender_send_header s =
    (do
      wrapping (wrap "sending header") (on_conn (Wire.send_header (session_header s)))
      pure (if s.total_chunks == 0 then finished else waiting_chunk_request))
      s

-- `stepSenderWaitChunkRequest`.
unfoldable pub step_sender_wait_chunk_request : Step
step_sender_wait_chunk_request s =
    (do
      idx ← wrapping (wrap "reading chunk request") (on_conn Wire.read_chunk_request)
      if idx == s.current_chunk
          then pure send_chunk_response
          else throw (mismatch "out-of-order chunk request" s.current_chunk idx))
      s

-- `stepSenderWaitLotteryTicket`.
unfoldable pub step_sender_wait_lottery_ticket : Step
step_sender_wait_lottery_ticket s =
    (do
      idx ← wrapping (wrap "reading lottery ticket") (on_conn Wire.read_lottery_ticket)
      if idx == s.current_chunk
          then pure send_key_reveal
          else throw (mismatch "lottery ticket for wrong chunk" s.current_chunk idx))
      s

-- `s.PendingChunk = c`
abbrev pub set_pending : Chunk → Act Session (Unit {0})
set_pending c s = (ok tt, record s { pending_chunk = some c })

-- `stepSenderVerifyMerkle`, with the root or the panic of `Root_of_tree`.
abbrev pub verify_root : Result (List ℕ) → Step
verify_root r = do
  root ← give r
  wrapping (wrap "sending merkle root") (on_conn (Wire.send_root root))
  wrapping (wrap "waiting for final ack") (on_conn Wire.read_final_ack)
  pure finished

module _ (C : Crypto) where
  -- `generateFileID` at the time `now`.
  unfoldable pub generate_file_id : ℕ → File → Result (List ℕ)
  unfolding keccak
  generate_file_id now f =
      if f.stats
      then ok (keccak C (f.name ∷ put_uint64 (length f.content) ∷ put_uint64 now ∷ []))
      else fatal (failed "stat")

  -- `stepSenderSendChunkResponse`.
  unfoldable pub step_sender_send_chunk_response : Step
  step_sender_send_chunk_response s =
      (do
        plaintext ←
            wrapping (wrap_at "reading chunk from disk" s.current_chunk)
              (on_file (read_chunk_plaintext s.current_chunk s.chunk_size))
        c ← on_entropy (build_and_encrypt_chunk C s.file_id s.current_chunk plaintext)
        wrapping (wrap_at "sending chunk response" s.current_chunk)
            (on_conn (Wire.send_chunk_response c))
        set_pending c
        pure waiting_lottery_ticket)
        s

  -- The leaf of the chunk whose key was revealed.
  abbrev pub add_leaf : Chunk → Act Session (Unit {0})
  add_leaf c s = (
    ok tt,
    record s {
      pending_chunk = some (record c { leaf = generate_leaf C c });
      leaves = s.leaves ++ (generate_leaf C c ∷ []);
    },
  )

  abbrev pub reveal : Option Chunk → Step
  reveal none s = (panic, s)
  reveal (some c) s =
      (do
        wrapping (wrap_at "sending key reveal" s.current_chunk)
            (on_conn (Wire.send_key_reveal s.current_chunk c.key))
        add_leaf c
        finish_chunk waiting_chunk_request)
        s

  -- `stepSenderSendKeyReveal`.
  unfoldable pub step_sender_send_key_reveal : Step
  step_sender_send_key_reveal s = reveal s.pending_chunk s

  -- `stepSenderVerifyMerkle`.
  unfoldable pub step_sender_verify_merkle : Step
  step_sender_verify_merkle s = verify_root (root_of_tree (build_tree C s.leaves)) s

  -- `senderSteps`.
  unfoldable pub sender_steps : StepTable
  sender_steps idle = some step_sender_idle
  sender_steps send_header = some step_sender_send_header
  sender_steps waiting_chunk_request = some step_sender_wait_chunk_request
  sender_steps send_chunk_response = some step_sender_send_chunk_response
  sender_steps waiting_lottery_ticket = some step_sender_wait_lottery_ticket
  sender_steps send_key_reveal = some step_sender_send_key_reveal
  sender_steps verify_merkle = some step_sender_verify_merkle
  sender_steps _ = none

  -- The session that `SendFile` sets up once it has the file, its id and its header.
  unfoldable pub sender_session : File → List ℕ → MetaData → Stream → List ℕ → Disk → Session
  unfolding new_session
  sender_session f file_id header conn entropy disk =
      record (new_session conn role_sender entropy disk) {
        file = some f;
        file_id = file_id;
        file_name = header.name;
        file_size = header.file_size;
        total_chunks = header.reps;
      }

  abbrev pub prepare_session :
      File → Stream → List ℕ → Disk → Result (List ℕ) → Result MetaData → Result Session
  prepare_session f conn entropy disk (ok file_id) (ok header) =
      ok (sender_session f file_id header conn entropy disk)
  prepare_session f conn entropy disk (ok file_id) (err e) = err e
  prepare_session f conn entropy disk (ok file_id) panic = panic
  prepare_session f conn entropy disk (ok file_id) (fatal e) = fatal e
  prepare_session f conn entropy disk (err e) _ = err (wrap "couldn't generate file ID" e)
  prepare_session f conn entropy disk panic _ = panic
  prepare_session f conn entropy disk (fatal e) _ = fatal e

  -- A file that cannot be opened ends the process.
  abbrev pub open_found : ℕ → Stream → List ℕ → Disk → Option File → Result Session
  open_found now conn entropy disk none = fatal (wrap "Error reading the file" (failed "open"))
  open_found now conn entropy disk (some f) =
      prepare_session f conn entropy disk (generate_file_id now f) (prepare_metadata f)

  -- `SendFile` up to its call of `Run`.
  unfoldable pub open_session : ℕ → List ℕ → Stream → List ℕ → Disk → Result Session
  unfolding generate_file_id prepare_metadata sender_session
  open_session now path conn entropy disk = open_found now conn entropy disk (disk.open_file path)

  -- `defer file.Close()` at the end of `SendFile`.
  abbrev pub close_sent :
      Option (Result (Unit {0}) × Session) → Option (Result (Unit {0}) × Session)
  close_sent none = none
  close_sent (some (r, s)) = some (and_close (r, s))

  abbrev pub run_prepared : ℕ → Result Session → Result (Option (Result (Unit {0}) × Session))
  run_prepared fuel (ok s) = ok (close_sent (run fuel sender_steps s))
  run_prepared fuel (err e) = err e
  run_prepared fuel panic = panic
  run_prepared fuel (fatal e) = fatal e

  -- `SendFile`, with a bound on the rounds of `Run`.
  unfoldable pub send_file :
      ℕ → ℕ → List ℕ → Stream → List ℕ → Disk → Result (Option (Result (Unit {0}) × Session))
  unfolding open_session
  send_file fuel now path conn entropy disk =
      run_prepared fuel (open_session now path conn entropy disk)
