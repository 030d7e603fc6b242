-- ===== src/Protocol/Session.antt =====
-- Protocol/session.go: the session of one transfer and its methods. A session is used by one
-- goroutine, so the mutex is not in the model. The last fields stand for what the process has
-- besides the Go struct: its source of randomness and its file system.
use file_transfer_using_libp.Base.{ℕ, ◌+◌, ◌-◌, Bool, Option, none, List, []}
use file_transfer_using_libp.Base.{◌==◌, ltb, ◌&&◌, u32, if◌then◌else◌}
use file_transfer_using_libp.Base.{Error, illegal_transition, ok, err, Act}
use file_transfer_using_libp.Protocol.State.{TransferState, idle, error, is_allowed, to_string}
use file_transfer_using_libp.Protocol.Types.{Chunk, chunk_size}
use file_transfer_using_libp.Protocol.Stream.{Stream}
use file_transfer_using_libp.Protocol.File.{File, Disk}

pub data Role : Type 0 where
  role_sender role_receiver : Role

pub record Session : Type 0 where
  pub state : TransferState
  pub role : Role
  pub conn : Stream
  pub file_id : List ℕ
  pub file_name : List ℕ
  pub file_size : ℕ  -- uint64
  pub chunk_size : ℕ  -- uint32
  pub current_chunk : ℕ  -- uint32
  pub total_chunks : ℕ  -- uint32
  pub file : Option File
  pub pending_chunk : Option Chunk
  pub leaves : List (List ℕ)
  pub entropy : List ℕ  -- what `rand.Reader` has still to deliver
  pub disk : Disk

-- `NewSession`, in a process with that randomness and file system.
unfoldable pub new_session : Stream → Role → List ℕ → Disk → Session
new_session conn role entropy disk = record {
  state = idle;
  role = role;
  conn = conn;
  file_id = [];
  file_name = [];
  file_size = 0;
  chunk_size = chunk_size;
  current_chunk = 0;
  total_chunks = 0;
  file = none;
  pending_chunk = none;
  leaves = [];
  entropy = entropy;
  disk = disk;
}

-- `GetState`.
abbrev pub get_state : Session → TransferState
get_state s = s.state

-- `Transition`.
unfoldable pub transition : TransferState → Act Session (Unit {0})
unfolding is_allowed to_string
transition next s =
    if is_allowed s.state next
    then (ok tt, record s { state = next })
    else (err (illegal_transition (to_string s.state) (to_string next)), s)

-- `AdvanceChunk`: the counter is a uint32.
unfoldable pub advance_chunk : Session → Session
advance_chunk s = record s { current_chunk = u32 (s.current_chunk + 1) }

-- `IsLastChunk`. The subtraction is guarded by the test for zero.
unfoldable pub is_last_chunk : Session → Bool
is_last_chunk s = ltb 0 s.total_chunks && s.current_chunk == s.total_chunks - 1

-- `Fail`: the state becomes `error`, and the error is handed back.
unfoldable pub fail : Error → Act Session (Unit {0})
fail e s = (err e, record s { state = error })
