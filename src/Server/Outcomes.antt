-- ===== src/Server/Outcomes.antt =====
-- How `HandleStream` ends on any bytes that a peer sends.
use file_transfer_using_libp.Base.{
  ℕ, ◌+◌, ◌*◌, ◌^◌, ◌<◌, ◌≡◌, refl, subst, ◌⊎◌, inl, inr, false, Bool-cases, Option, none, some,
  List, ◌==◌, uint32, arith, IsByte, All, Result, ok, err, panic, fatal, IsPlain, and_then-IsPlain,
  on_error-IsPlain,
}
use file_transfer_using_libp.Protocol.Stream.{Stream}
use file_transfer_using_libp.Protocol.File.{File, Disk}
use file_transfer_using_libp.Protocol.Session.{Session}
use file_transfer_using_libp.Protocol.Progress.{Ended}
use file_transfer_using_libp.Wire.Reads.{Took-IsByte}
use file_transfer_using_libp.Wire.Plain.{read_full-IsPlain}
use file_transfer_using_libp.Crypto.{Crypto}
use file_transfer_using_libp.Controllers.Sender.{send_file}
use file_transfer_using_libp.Transfer.Told.Whole.{SaidWell, send_file-SaidWell}
use file_transfer_using_libp.Transfer.Transcript.Whole.{HeardAt, receive_file-HeardAt}
use file_transfer_using_libp.Server.{
  Handled, was_reset, sent, received, not_sent, unknown_command, read_request, reported, answer,
  after_request, handle_stream,
}
use file_transfer_using_libp.Server.Requests.{read_request-Took}

-- The server has read that request, and goes on with that connection.
abbrev pub Requested : Stream → ℕ → List ℕ → Stream → Type 0
Requested conn typ path s = read_request conn ≡ (ok (typ, path), s)

-- A file cannot be opened, or has no `Stat`.
abbrev pub IsUnreadable : Option File → Type 0
IsUnreadable found = (found ≡ none) ⊎ ((f : File) × (found ≡ some f) × (f.stats ≡ false))

module _ (C : Crypto) (now : ℕ) (entropy : List ℕ) (disk : Disk) (conn : Stream) where
  -- How `HandleStream` may end: with a reset where the request could not be read; with what
  -- `SendFile` may end with on that connection, for type 0; with what `RecieveFile` may, for type 1;
  -- with nothing done for another type; or with the end of the process, only for type 0 and a path
  -- at which no file can be opened or the file has no `Stat`.
  abbrev pub HandledWell : Result Handled → Type 0
  HandledWell (ok (was_reset e s)) = read_request conn ≡ (err e, s)
  HandledWell (ok (sent o)) =
      (path : List ℕ) × (s : Stream) × Requested conn 0 path s
      × SaidWell C now (disk.open_file path) entropy s (ok o)
  HandledWell (ok (received o)) =
      (path : List ℕ) × (s : Stream) × Requested conn 1 path s × Ended (HeardAt C s) o
  HandledWell (ok (not_sent e)) = ⊥
  HandledWell (ok (unknown_command typ s)) = (path : List ℕ) × Requested conn typ path s × (1 < typ)
  HandledWell (err e) = ⊥
  HandledWell panic = ⊥
  HandledWell (fatal e) =
      (path : List ℕ) × (s : Stream) × Requested conn 0 path s × IsUnreadable (disk.open_file path)

  reported-HandledWell :
      (path : List ℕ) (s : Stream) (r : Result (Option (Result (Unit {0}) × Session)))
      → Requested conn 0 path s
      → SaidWell C now (disk.open_file path) entropy s r
      → HandledWell (reported r)
  reported-HandledWell path s (ok o) q h = (path, s, q, h)
  reported-HandledWell path s (err e) q h = absurd h
  reported-HandledWell path s panic q h = absurd h
  reported-HandledWell path s (fatal e) q h = (path, s, q, h)

  module _ (fuel : ℕ) (enough : 5 * 2 ^ 32 + 3 < fuel) where
    answer-HandledWell :
        (typ : ℕ) (path : List ℕ) (s : Stream)
        → All IsByte s.incoming
        → Requested conn typ path s
        → HandledWell (answer C fuel now entropy disk typ path s)
    unfolding answer
    answer-HandledWell typ path s bytes q = elim (Bool-cases (typ == 0)) [
      | inl is_get ↦ rw is_get (
          reported-HandledWell path s (send_file C fuel now path s entropy disk)
            (subst (λ n. Requested conn n path s) (let e : typ ≡ 0 = ground arith in e) q)
            (send_file-SaidWell C fuel now path s entropy disk bytes (omega arith)))
      | inr other ↦ elim (Bool-cases (typ == 1)) [
        | inl is_post ↦
            rw (other, is_post)
              (
                path,
                s,
                subst (λ n. Requested conn n path s) (let e : typ ≡ 1 = ground arith in e) q,
                receive_file-HeardAt C fuel s entropy disk bytes enough,
              )
        | inr unknown ↦ rw (other, unknown) (path, q, ground arith)
      ]
    ]

    after_request-HandledWell :
        (r : Result (ℕ × List ℕ) × Stream)
        → All IsByte conn.incoming
        → IsPlain r
        → read_request conn ≡ r
        → HandledWell (after_request C fuel now entropy disk r)
    after_request-HandledWell (ok (typ, path), s) bytes p e =
        answer-HandledWell typ path s
          (Took-IsByte (read_request-Took conn s typ path bytes e).0 bytes).1 e
    after_request-HandledWell (err e', s) bytes p e = e
    after_request-HandledWell (panic, s) bytes p e = absurd p
    after_request-HandledWell (fatal e', s) bytes p e = absurd p

read_request-IsPlain : (c : Stream) → IsPlain (read_request c)
unfolding read_request
read_request-IsPlain c =
    and_then-IsPlain _ _ (on_error-IsPlain _ _ (read_full-IsPlain 4 c)) λ typ c1.
      and_then-IsPlain _ _ (on_error-IsPlain _ _ (read_full-IsPlain 4 c1)) λ n c2.
        and_then-IsPlain _ _ (on_error-IsPlain _ _ (read_full-IsPlain (uint32 n) c2)) λ path c3. tt

-- On any bytes, `HandleStream` ends, given more than `5 * 2 ^ 32 + 3` rounds: it resets the stream
-- where the request breaks off; else it has run a sender for type 0, a receiver for type 1, each of
-- them ended as stated for `SendFile` and `RecieveFile`, or done nothing for another type. It does not
-- panic, and the process ends only by a request of type 0 whose path names a file that cannot be opened
-- or has no `Stat`.
pub handle_stream-HandledWell :
    (C : Crypto) (fuel now : ℕ) (entropy : List ℕ) (disk : Disk) (conn : Stream)
    → All IsByte conn.incoming
    → 5 * 2 ^ 32 + 3 < fuel
    → HandledWell C now entropy disk conn (handle_stream C fuel now entropy disk conn)
unfolding handle_stream
handle_stream-HandledWell C fuel now entropy disk conn bytes enough =
    after_request-HandledWell C now entropy disk conn fuel enough (read_request conn) bytes
      (read_request-IsPlain conn) refl
