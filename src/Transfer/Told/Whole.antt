-- ===== src/Transfer/Told/Whole.antt =====
-- `SendFile` as a whole: how it ends, and what it has read and written.
use file_transfer_using_libp.Base.{
  ℕ, ◌+◌, ◌*◌, ◌^◌, ◌<◌, ◌≡◌, refl, sym, ap, subst, subst₂, ◌⊎◌, inl, inr, true, false, Bool-cases,
  Option, none, some, List, append-nil, arith, All, IsByte, IsU32, Result, ok, err, panic, fatal,
  u32,
}
use file_transfer_using_libp.Protocol.State.{TransferState}
use file_transfer_using_libp.Protocol.Types.{MetaData}
use file_transfer_using_libp.Protocol.Stream.{Stream}
use file_transfer_using_libp.Protocol.File.{File, Disk, close_file, on_some_file}
use file_transfer_using_libp.Protocol.Session.{Session, new_session}
use file_transfer_using_libp.Protocol.Fsm.{run}
use file_transfer_using_libp.Protocol.Progress.{Ended, run-Ended}
use file_transfer_using_libp.Crypto.{Crypto}
use file_transfer_using_libp.Controllers.Sender.{
  sender_steps, sender_session, prepare_session, generate_file_id, prepare_metadata, open_found,
  open_session, close_sent, run_prepared, send_file, session_header,
}
use file_transfer_using_libp.Controllers.Sender.Steps.{sender_rank}
use file_transfer_using_libp.Controllers.Receiver.Finish.{close_file_shut}
use file_transfer_using_libp.Controllers.Sender.Finish.{identified, described, unidentified}
use file_transfer_using_libp.Transfer.Told.Rounds.{with_id, SaidAt, both_keep, said-Driven}

-- The file that a session has in the end is closed.
abbrev pub IsShut : Option (Result (Unit {0}) × Session) → Type 0
IsShut none = Unit
IsShut (some (_, t)) = (g : File) → t.file ≡ some g → g.closed ≡ true

-- What `SendFile` does before `Run`: a session at its start, or the end of the process.
abbrev pub Opened : Crypto → ℕ → Option File → List ℕ → Stream → Result Session → Type 0
Opened C now found entropy conn (ok s) =
    (f : File) × (found ≡ some f)
    × (file_id : List ℕ) × (generate_file_id C now f ≡ ok file_id)
    × (header : MetaData) × (prepare_metadata f ≡ ok header)
    × (s.state ≡ TransferState.idle)
    × SaidAt C (with_id header file_id) f entropy conn TransferState.idle s
Opened C now found entropy conn (err e) = ⊥
Opened C now found entropy conn panic = ⊥
Opened C now found entropy conn (fatal e) =
    (found ≡ none) ⊎ ((f : File) × (found ≡ some f) × (f.stats ≡ false))

-- How `SendFile` may end.
abbrev pub SaidWell :
    Crypto
    → ℕ
    → Option File
    → List ℕ
    → Stream
    → Result (Option (Result (Unit {0}) × Session))
    → Type 0
SaidWell C now found entropy conn (ok o) =
    (f : File) × (found ≡ some f)
    × (file_id : List ℕ) × (generate_file_id C now f ≡ ok file_id)
    × (header : MetaData) × (prepare_metadata f ≡ ok header)
    × Ended (SaidAt C (with_id header file_id) f entropy conn) o
    × IsShut o
SaidWell C now found entropy conn (err e) = ⊥
SaidWell C now found entropy conn panic = ⊥
SaidWell C now found entropy conn (fatal e) =
    (found ≡ none) ⊎ ((f : File) × (found ≡ some f) × (f.stats ≡ false))

close_shut : (o : Option File) (g : File) → (on_some_file close_file o).1 ≡ some g → g.closed ≡ true
close_shut none g e = cc
close_shut (some f) g e =
    let same : (close_file f).1 ≡ g = cc e in
    subst (λ x. x.closed ≡ true) same (close_file_shut f).0

module _ (C : Crypto) where
  close_sent-IsShut : (o : Option (Result (Unit {0}) × Session)) → IsShut (close_sent C o)
  close_sent-IsShut none = tt
  close_sent-IsShut (some (r, t)) = close_shut t.file

  module _ (h : MetaData) (f : File) (entropy0 : List ℕ) (conn0 : Stream) where
    close_sent-Ended :
        (o : Option (Result (Unit {0}) × Session))
        → Ended (SaidAt C h f entropy0 conn0) o
        → Ended (SaidAt C h f entropy0 conn0) (close_sent C o)
    close_sent-Ended none x = x
    close_sent-Ended (some (ok _, t)) (st, (v, x)) = (st, (ground arith, x))
    close_sent-Ended (some (err e, t)) x = x
    close_sent-Ended (some (panic, t)) x = x
    close_sent-Ended (some (fatal e, t)) x = x

  described_small :
      (f : File) (header : MetaData) → prepare_metadata f ≡ ok header → IsU32 header.file_size
  unfolding prepare_metadata
  described_small f header e = ground arith

  session-SaidAt :
      (f : File) (file_id : List ℕ) (header : MetaData) (conn : Stream) (entropy : List ℕ)
      (disk : Disk)
      → IsU32 header.reps
      → IsU32 header.file_size
      → SaidAt C
          (with_id header file_id)
          f
          entropy
          conn
          TransferState.idle
          (sender_session C f file_id header conn entropy disk)
  unfolding sender_session new_session session_header
  session-SaidAt f file_id header conn entropy disk fits small = (
    record { first_chunk = refl; fits = fits; no_leaves = refl },
    (
      ap (λ n. record header { file_size = n; file_id = file_id })
          (let e : u32 header.file_size ≡ header.file_size = omega arith in e),
      record {
        same_id = refl;
        same_total = refl;
        same_size = refl;
        same_file = refl;
        count = refl;
        secrets = tt;
        same_leaves = refl;
        drew = refl;
      },
      record { has_heard = refl; has_told = sym (append-nil conn.outgoing) },
    ),
  )

  session_idle :
      (f : File) (file_id : List ℕ) (header : MetaData) (conn : Stream) (entropy : List ℕ)
      (disk : Disk)
      → (sender_session C f file_id header conn entropy disk).state ≡ TransferState.idle
  unfolding sender_session new_session
  session_idle f file_id header conn entropy disk = refl

  found-Opened :
      (now : ℕ) (conn : Stream) (entropy : List ℕ) (disk : Disk) (found : Option File)
      → Opened C now found entropy conn (open_found C now conn entropy disk found)
  found-Opened now conn entropy disk none = inl refl
  found-Opened now conn entropy disk (some f) =
      let Goal : Result (List ℕ) → Result MetaData → Type 0 =
        λ i h. Opened C now (some f) entropy conn (prepare_session C f conn entropy disk i h) in
      elim (Bool-cases f.stats) [
        | inl stats ↦
            let (file_id, e) = identified C now f stats in
            let (header, e', fits) = described C f stats in
            subst₂ Goal (sym e) (sym e') (
              f,
              refl,
              file_id,
              e,
              header,
              e',
              session_idle f file_id header conn entropy disk,
              session-SaidAt f file_id header conn entropy disk fits (described_small f header e'),
            )
        | inr fails ↦
            subst (λ i. Goal i (prepare_metadata f)) (sym (unidentified C now f fails))
              (inr (f, refl, fails))
      ]

  pub open_session-Opened :
      (now : ℕ) (path : List ℕ) (conn : Stream) (entropy : List ℕ) (disk : Disk)
      → Opened C now (disk.open_file path) entropy conn (open_session C now path conn entropy disk)
  unfolding open_session
  open_session-Opened now path conn entropy disk =
      found-Opened now conn entropy disk (disk.open_file path)

  run_prepared-SaidWell :
      (fuel now : ℕ) (found : Option File) (conn : Stream) (entropy : List ℕ) (r : Result Session)
      → All IsByte conn.incoming
      → 4 * 2 ^ 32 + 3 < fuel
      → Opened C now found entropy conn r
      → SaidWell C now found entropy conn (run_prepared C fuel r)
  run_prepared-SaidWell fuel now found conn entropy (ok s) bytes less
        (f, is_f, file_id, e, header, e', idle, (v, x)) =
      let h = with_id header file_id in
      (
        f,
        is_f,
        file_id,
        e,
        header,
        e',
        close_sent-Ended h f entropy conn (run fuel (sender_steps C) s) (
            run-Ended (SaidAt C h f entropy conn) sender_rank (sender_steps C)
              (both_keep C h f entropy conn) (λ next t. refl) (λ t y. y.0)
              (said-Driven C h f entropy conn bytes) fuel s
              (subst (λ st. SaidAt C h f entropy conn st s) (sym idle) (v, x))
              (subst (λ st. sender_rank st s < fuel) (sym idle)
                (omega (arith, v.fits, v.first_chunk)))),
        close_sent-IsShut (run fuel (sender_steps C) s),
      )
  run_prepared-SaidWell fuel now found conn entropy (err e) bytes less x = x
  run_prepared-SaidWell fuel now found conn entropy panic bytes less x = x
  run_prepared-SaidWell fuel now found conn entropy (fatal e) bytes less x = x

  -- Given more than `4 * 2 ^ 32 + 3` rounds, `SendFile` ends on any path, file system and randomness and
  -- any bytes of a peer. Where the file cannot be opened or has no `Stat`, the process ends, and only
  -- there. Else a file that the session has in the end is closed, and either a step has failed and the
  -- state is `error`; or the session is finished with a leaf for every chunk, and what was written is
  -- the header and for each chunk of the file, in order, the response and the key, sealed with a key
  -- and a nonce that the randomness gave for it, and the root over their leaves, and nothing else;
  -- while what was read is a request and a ticket for each chunk and the acknowledgement. For an empty
  -- file only the header was written, and nothing was read. There is no panic and no other error.
  pub send_file-SaidWell :
      (fuel now : ℕ) (path : List ℕ) (conn : Stream) (entropy : List ℕ) (disk : Disk)
      → All IsByte conn.incoming
      → 4 * 2 ^ 32 + 3 < fuel
      → SaidWell C now
          (disk.open_file path)
          entropy
          conn
          (send_file C fuel now path conn entropy disk)
  unfolding send_file
  send_file-SaidWell fuel now path conn entropy disk bytes less =
      run_prepared-SaidWell fuel now (disk.open_file path) conn entropy
        (open_session C now path conn entropy disk) bytes less
        (open_session-Opened now path conn entropy disk)
