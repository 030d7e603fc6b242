-- ===== src/Controllers/Actions.antt =====
-- A step works on a session. These are its calls of what the session holds: the connection, the
-- source of randomness, the open file and the chunk in flight.
use file_transfer_using_libp.Base.{
  ℕ, ◌*◌, ◌^◌, Option, none, some, List, take, drop, ltb, if◌then◌else◌, failed, Result, ok, err,
  panic, Act,
}
use file_transfer_using_libp.Protocol.State.{TransferState, verify_merkle}
use file_transfer_using_libp.Protocol.Types.{Chunk}
use file_transfer_using_libp.Protocol.Stream.{Stream}
use file_transfer_using_libp.Protocol.File.{File, on_some_file, close_file}
use file_transfer_using_libp.Protocol.Session.{Session, is_last_chunk, advance_chunk}

abbrev pub keep_conn : {A : Type 0} → Session → Result A × Stream → Result A × Session
keep_conn s (r, c) = (r, record s { conn = c })

abbrev pub on_conn : {A : Type 0} → Act Stream A → Act Session A
on_conn m s = keep_conn s (m s.conn)

abbrev pub keep_entropy : {A : Type 0} → Session → Result A × List ℕ → Result A × Session
keep_entropy s (r, e) = (r, record s { entropy = e })

abbrev pub on_entropy : {A : Type 0} → Act (List ℕ) A → Act Session A
on_entropy m s = keep_entropy s (m s.entropy)

abbrev pub keep_open_file : {A : Type 0} → Session → Result A × Option File → Result A × Session
keep_open_file s (r, f) = (r, record s { file = f })

abbrev pub on_file : {A : Type 0} → Act File A → Act Session A
on_file m s = keep_open_file s (on_some_file m s.file)

abbrev pub keep_pending : {A : Type 0} → Session → Result A × Chunk → Result A × Session
keep_pending s (r, c) = (r, record s { pending_chunk = some c })

-- A call on the chunk that `PendingChunk` points to; a nil pointer is a panic.
abbrev pub on_some_pending : {A : Type 0} → Act Chunk A → Option Chunk → Act Session A
on_some_pending m none s = (panic, s)
on_some_pending m (some c) s = keep_pending s (m c)

abbrev pub on_pending : {A : Type 0} → Act Chunk A → Act Session A
on_pending m s = on_some_pending m s.pending_chunk s

-- A result that needs no state.
abbrev pub give : {S A : Type 0} → Result A → Act S A
give r s = (r, s)

-- `ReadChunkPlaintext` of Chunk/chunk.go: `ReadAt` into a buffer of a chunk's size. The offset is
-- an int64, and a negative one is an error.
unfoldable pub read_chunk_plaintext : ℕ → ℕ → Act File (List ℕ)
read_chunk_plaintext index chunk_size f =
    if f.closed
    then (err (failed "file already closed"), f)
    else (if ltb (chunk_size * index) (2 ^ 63)
        then (if f.readable
            then (ok (take chunk_size (drop (chunk_size * index) f.content)), f)
            else (err (failed "read"), f))
        else (err (failed "negative offset"), f))

-- The end of `stepSenderSendKeyReveal` and of `stepReceiverVerifyChunk`: the chunk is done, and the
-- next one begins unless it was the last.
unfoldable pub finish_chunk : TransferState → Act Session TransferState
unfolding is_last_chunk advance_chunk
finish_chunk more s =
    let t = record s { pending_chunk = none } in
    if is_last_chunk s then (ok verify_merkle, t) else (ok more, advance_chunk t)

-- A deferred `Close` of the file of the session: the file is closed however the step ends, and the error is dropped.
abbrev pub and_close : {A : Type 0} → Result A × Session → Result A × Session
and_close (r, s) = (r, (on_file close_file s).1)

abbrev pub closing : {A : Type 0} → Act Session A → Act Session A
closing m s = and_close (m s)
