-- ===== src/Protocol/Stream.antt =====
-- Protocol/stream.go: the connection of a session, as what it does to one run of the program:
-- the bytes that it delivers, the error with which it ends, and which writes it accepts.
use file_transfer_using_libp.Base.{ℕ, Bool, List, [], ◌++◌, length, take, drop, leb, if◌then◌else◌}
use file_transfer_using_libp.Base.{Error, eof, unexpected_eof, failed, ok, err, Act}

pub record Stream : Type 0 where
  pub incoming : List ℕ  -- what `Read` has still to deliver
  pub ending : Error  -- what `Read` returns after the last byte
  pub outgoing : List ℕ  -- what was written
  pub accepts : List ℕ → Bool  -- whether `Write` succeeds after those bytes

-- `io.ReadFull` turns an `io.EOF` inside the buffer into `io.ErrUnexpectedEOF`.
abbrev pub cut_short : Error → Error
cut_short eof = unexpected_eof
cut_short e = e

abbrev pub read_error : List ℕ → Error → Error
read_error [] e = e
read_error xs e = cut_short e

-- `io.ReadFull(conn, buf)` for a buffer of `n` bytes.
unfoldable pub read_full : ℕ → Act Stream (List ℕ)
read_full n c =
    if leb n (length c.incoming)
    then (ok (take n c.incoming), record c { incoming = drop n c.incoming })
    else (err (read_error c.incoming c.ending), record c { incoming = [] })

-- `conn.Write(buf)`.
unfoldable pub write : List ℕ → Act Stream (Unit {0})
write buf c =
    if c.accepts c.outgoing
    then (ok tt, record c { outgoing = c.outgoing ++ buf })
    else (err (failed "write"), c)
