-- ===== src/Controllers/Sender/Finish.antt =====
-- `SendFile` as a whole, on any file system, connection and randomness.
use file_transfer_using_libp.Base.{
  ℕ, ◌+◌, ◌-◌, ◌*◌, ◌/◌, ◌^◌, ◌<◌, ◌≡◌, refl, sym, ap, subst, subst₂, put_uint64, ◌∷◌, failed, ◌⊎◌,
  inl, inr, true, false, Bool-cases, Option, none, some, List, [], arith, Result, ok, err, panic,
  fatal, length, u32, IsU32, if◌then◌else◌,
}
use file_transfer_using_libp.Protocol.Types.{MetaData, chunk_size}
use file_transfer_using_libp.Protocol.Stream.{Stream}
use file_transfer_using_libp.Protocol.File.{File, Disk}
use file_transfer_using_libp.Protocol.Session.{Session, new_session}
use file_transfer_using_libp.Protocol.Fsm.{run}
use file_transfer_using_libp.Protocol.Progress.{Ended}
use file_transfer_using_libp.Crypto.{Crypto, keccak}
use file_transfer_using_libp.Controllers.Sender.{
  sender_steps, sender_session, prepare_session, generate_file_id, prepare_metadata, open_found,
  open_session, close_sent, run_prepared, send_file,
}
use file_transfer_using_libp.Controllers.Sender.Steps.{SenderAt}
use file_transfer_using_libp.Controllers.Sender.Rounds.{sender_run}

-- How `SendFile` may end: `Run` ends as it does for a sender, or the process ends because the file
-- cannot be opened or has no `Stat`.
abbrev pub SendEnded : Option File → Result (Option (Result (Unit {0}) × Session)) → Type 0
SendEnded found (ok o) = Ended SenderAt o
SendEnded found (err e) = ⊥
SendEnded found panic = ⊥
SendEnded found (fatal e) = (found ≡ none) ⊎ ((f : File) × (found ≡ some f) × (f.stats ≡ false))

closed-Ended :
    (C : Crypto) (o : Option (Result (Unit {0}) × Session))
    → Ended SenderAt o
    → Ended SenderAt (close_sent C o)
closed-Ended C none h = h
closed-Ended C (some (ok _, t)) (st, v) = (st, ground arith)
closed-Ended C (some (err e, t)) h = h
closed-Ended C (some (panic, t)) h = h
closed-Ended C (some (fatal e, t)) h = h

module _ (C : Crypto) where
  session-Ended :
      (fuel : ℕ) (f : File) (file_id : List ℕ) (header : MetaData) (conn : Stream)
      (entropy : List ℕ) (disk : Disk)
      → IsU32 header.reps
      → 4 * 2 ^ 32 + 3 < fuel
      → Ended SenderAt (
          close_sent C
            (run fuel (sender_steps C) (sender_session C f file_id header conn entropy disk)))
  unfolding sender_session new_session
  session-Ended fuel f file_id header conn entropy disk fits less =
      let s = sender_session C f file_id header conn entropy disk in
      closed-Ended C (run fuel (sender_steps C) s) (
        sender_run C fuel s refl (record { first_chunk = refl; fits = fits; no_leaves = refl })
          (omega arith))

  pub identified :
      (now : ℕ) (f : File)
      → f.stats ≡ true
      → (file_id : List ℕ) × (generate_file_id C now f ≡ ok file_id)
  unfolding generate_file_id
  identified now f h =
      let file_id = keccak C (f.name ∷ put_uint64 (length f.content) ∷ put_uint64 now ∷ []) in
      (file_id, ap (λ b. if b then ok file_id else fatal (failed "stat")) h)

  pub described :
      (f : File)
      → f.stats ≡ true
      → (header : MetaData) × (prepare_metadata f ≡ ok header) × IsU32 header.reps
  unfolding prepare_metadata
  described f h =
      let header : MetaData = record {
        name = f.name;
        file_size = u32 (length f.content);
        reps = u32 ((length f.content + chunk_size - 1) / chunk_size);
        file_id = [];
      } in
      (header, ap (λ b. if b then ok header else panic) h, omega arith)

  pub unidentified :
      (now : ℕ) (f : File) → f.stats ≡ false → generate_file_id C now f ≡ fatal (failed "stat")
  unfolding generate_file_id
  unidentified now f h =
      ap
        (λ b.
          if b
          then ok (keccak C (f.name ∷ put_uint64 (length f.content) ∷ put_uint64 now ∷ []))
          else fatal (failed "stat"))
        h

  found-Ended :
      (fuel now : ℕ) (conn : Stream) (entropy : List ℕ) (disk : Disk) (found : Option File)
      → 4 * 2 ^ 32 + 3 < fuel
      → SendEnded found (run_prepared C fuel (open_found C now conn entropy disk found))
  found-Ended fuel now conn entropy disk none less = inl refl
  found-Ended fuel now conn entropy disk (some f) less =
      let Goal : Result (List ℕ) → Result MetaData → Type 0 = λ i h.
        SendEnded (some f) (run_prepared C fuel (prepare_session C f conn entropy disk i h)) in
      elim (Bool-cases f.stats) [
        | inl stats ↦
            let (file_id, e) = identified now f stats in
            let (header, e', fits) = described f stats in
            subst₂ Goal (sym e) (sym e')
              (session-Ended fuel f file_id header conn entropy disk fits less)
        | inr fails ↦
            subst (λ i. Goal i (prepare_metadata f)) (sym (unidentified now f fails))
              (inr (f, refl, fails))
      ]

  -- Given more than `4 * 2 ^ 32 + 3` rounds, `SendFile` ends on any path, file system, connection and
  -- randomness: `Run` has finished the session with a leaf for every chunk, or has ended in the state
  -- `error` by the error of a step; or the process has ended, which happens only where the file cannot
  -- be opened or its `Stat` fails. It returns no other error and does not panic.
  pub send_file-SendEnded :
      (fuel now : ℕ) (path : List ℕ) (conn : Stream) (entropy : List ℕ) (disk : Disk)
      → 4 * 2 ^ 32 + 3 < fuel
      → SendEnded (disk.open_file path) (send_file C fuel now path conn entropy disk)
  unfolding send_file open_session
  send_file-SendEnded fuel now path conn entropy disk less =
      found-Ended fuel now conn entropy disk (disk.open_file path) less
