-- ===== src/Protocol/Reached.antt =====
-- The sessions that are reached while bytes arrive: the rounds of `Run`, and between them any bytes
-- from the peer.
use file_transfer_using_libp.Base.{ℕ, ◌≡◌, refl, sym, ◌∙◌, subst, inl, inr, List, ◌++◌, All, IsByte}
use file_transfer_using_libp.Protocol.State.{TransferState, error}
use file_transfer_using_libp.Protocol.Session.{Session}
use file_transfer_using_libp.Protocol.Fsm.{StepTable, Round, returned, again, round}
use file_transfer_using_libp.Protocol.Progress.{
  IsWorking, IsWorking-cases, Driven, Goes, round-Goes, round_finished,
}

-- A session for which more bytes have come.
abbrev pub more_came : List ℕ → Session → Session
more_came bytes s = record s { conn = record s.conn { incoming = s.conn.incoming ++ bytes } }

-- What a session can become.
pub data Reached (steps : StepTable) (s : Session) : Session → Type 0 where
  start : Reached steps s s
  arrives :
      (t : Session) (bytes : List ℕ)
      → All IsByte bytes
      → Reached steps s t
      → Reached steps s (more_came bytes t)
  goes_on : (t u : Session) → Reached steps s t → round steps t ≡ again u → Reached steps s u

abbrev Returned : Round → Type 0
Returned (returned r t) = Unit
Returned (again t) = ⊥

module _ (At : TransferState → Session → Type 0) (rank : TransferState → Session → ℕ)
    (steps : StepTable)
    (keeps : (next : TransferState) (t : Session) → At next t → At next (record t { state = next }))
    (same : (next : TransferState) (t : Session)
      → rank next (record t { state = next }) ≡ rank next t)
    (never : (s : Session) → At error s → ⊥)
    (hears : (st : TransferState) (s : Session) (bytes : List ℕ)
      → All IsByte bytes
      → At st s
      → At st (more_came bytes s))
    (drive : (st : TransferState) (s : Session)
      → s.state ≡ st
      → IsWorking st
      → At st s
      → Driven At rank steps st s) where
  -- A round that is not the last keeps the invariant.
  again-At : (t u : Session) → At t.state t → round steps t ≡ again u → At u.state u
  again-At t u at e = elim (IsWorking-cases t.state) [
    | inl (inl h) ↦ absurd (subst Returned (sym (round_finished At rank steps t h) ∙ e) tt)
    | inl (inr h) ↦ absurd (never t (subst (λ st. At st t) h at))
    | inr w ↦
        let (step, is_step, l) = drive t.state t refl w at in
        let gone : Goes At rank t.state t (again u) =
          subst (Goes At rank t.state t) e
            (round-Goes At rank steps t.state t step keeps same refl w is_step l) in
        gone.0
  ]

  -- The invariant holds of every session that is reached.
  pub Reached-At : (s t : Session) → At s.state s → Reached steps s t → At t.state t
  Reached-At s _ at start = at
  Reached-At s _ at (arrives t bytes are_bytes r) =
      hears t.state t bytes are_bytes (Reached-At s t at r)
  Reached-At s u at (goes_on t _ r e) = again-At t u (Reached-At s t at r) e
