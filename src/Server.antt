-- ===== src/Server.antt =====
-- Server/server.go: what the server does with a stream that a peer opens.
pub mod Requests
pub mod Outcomes
pub mod Delivery
pub mod Start
use file_transfer_using_libp.Base.{
  ℕ, Option, none, some, List, [], ◌∷◌, ◌==◌, if◌then◌else◌, uint32, failed, wrap, Error, Result,
  ok, err, panic, fatal, Act, pure, ◌>>=◌, wrapping,
}
use file_transfer_using_libp.Protocol.Stream.{Stream, read_full}
use file_transfer_using_libp.Protocol.File.{Disk}
use file_transfer_using_libp.Protocol.Session.{Session}
use file_transfer_using_libp.Crypto.{Crypto}
use file_transfer_using_libp.Controllers.Sender.{send_file}
use file_transfer_using_libp.Controllers.Receiver.{receive_file}

-- The first half of `HandleStream`: the type of the request and the path.
unfoldable pub read_request : Act Stream (ℕ × List ℕ)
read_request = do
  typ ← wrapping (wrap "Couldn't read typ in whattodoheader") (read_full 4)
  path_length ← wrapping (wrap "Couldn't read lengthOfPath in whattodoheader") (read_full 4)
  path ← wrapping (wrap "Couldn't read path in whattodoheader") (read_full (uint32 path_length))
  pure (uint32 typ, path)

-- How `HandleStream` ends, where the process does not: the stream was reset, the file was sent or
-- received as far as it went, or the type of the request is unknown.
pub data Handled : Type 0 where
  was_reset : Error → Stream → Handled
  sent received : Option (Result (Unit {0}) × Session) → Handled
  not_sent : Error → Handled
  unknown_command : ℕ → Stream → Handled

abbrev pub reported : Result (Option (Result (Unit {0}) × Session)) → Result Handled
reported (ok o) = ok (sent o)
reported (err e) = ok (not_sent e)
reported panic = panic
reported (fatal e) = fatal e

module _ (C : Crypto) (fuel now : ℕ) (entropy : List ℕ) (disk : Disk) where
  -- The `switch` of `HandleStream`.
  unfoldable pub answer : ℕ → List ℕ → Stream → Result Handled
  answer typ path s =
      if typ == 0
      then reported (send_file C fuel now path s entropy disk)
      else (if typ == 1
          then ok (received (receive_file C fuel s entropy disk))
          else ok (unknown_command typ s))

  abbrev pub after_request : Result (ℕ × List ℕ) × Stream → Result Handled
  after_request (ok (typ, path), s) = answer typ path s
  after_request (err e, s) = ok (was_reset e s)
  after_request (panic, s) = panic
  after_request (fatal e, s) = fatal e

  -- `HandleStream`.
  unfoldable pub handle_stream : Stream → Result Handled
  unfolding read_request answer
  handle_stream s = after_request (read_request s)
