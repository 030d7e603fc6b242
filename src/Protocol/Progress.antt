-- ===== src/Protocol/Progress.antt =====
-- `Run` for any table of steps that keep an invariant and come nearer to the end: it returns, and
-- either the session is finished or a step has failed.
use file_transfer_using_libp.Base.{
  ℕ, zero, suc, ◌≤◌, ◌<◌, ◌≡◌, refl, sym, ap, ◌∙◌, subst, ◌⊎◌, inl, inr, true, Option, none, some,
  arith, Error, wrap, Result, ok, err, panic, fatal,
}
use file_transfer_using_libp.Protocol.State.{TransferState, finished, error, is_allowed, to_string}
use file_transfer_using_libp.Protocol.Session.{Session, transition, fail}
use file_transfer_using_libp.Protocol.Fsm.{
  Step, StepTable, Round, returned, again, round, run, after_step, dispatch, take_step, follow,
}

-- The error of a step, as `Run` hands it on. A missing step and an illegal transition give others.
abbrev pub StepError : Error → Type 0
StepError e = (st : TransferState) × (cause : Error) × (e ≡ wrap (to_string st) cause)

-- How a call of `Run` may end: `At finished` holds, or the state is `error` and a step gave the
-- error. Running out of fuel, a panic and `log.Fatal` are excluded.
abbrev pub Ended :
    (TransferState → Session → Type 0) → Option (Result (Unit {0}) × Session) → Type 0
Ended At none = ⊥
Ended At (some (ok _, t)) = (t.state ≡ finished) × At finished t
Ended At (some (err e, t)) = (t.state ≡ error) × StepError e
Ended At (some (panic, t)) = ⊥
Ended At (some (fatal e, t)) = ⊥

abbrev pub IsWorking : TransferState → Type 0
IsWorking finished = ⊥
IsWorking error = ⊥
IsWorking _ = Unit

pub IsWorking-cases : (st : TransferState) → ((st ≡ finished) ⊎ (st ≡ error)) ⊎ IsWorking st
IsWorking-cases finished = inl (inl refl)
IsWorking-cases error = inl (inr refl)
IsWorking-cases _ = inr tt

dispatch_working :
    (st : TransferState) (steps : StepTable) (s : Session)
    → IsWorking st
    → dispatch st steps s ≡ take_step st (steps st) s
dispatch_working finished steps s w = absurd w
dispatch_working error steps s w = absurd w
dispatch_working _ steps s w = refl

module _ (steps : StepTable) (s : Session) (st : TransferState) (step : Step) (h : s.state ≡ st)
    (w : IsWorking st) (e : steps st ≡ some step) where
  pub stepped : round steps s ≡ after_step st (step s)
  unfolding round
  stepped =
      ap (λ x. dispatch x steps s) h ∙ dispatch_working st steps s w ∙ ap (λ o. take_step st o s) e

  -- A round in a state in work is a call of its step, and the session goes on where that succeeds.
  pub round_step :
      (t : Session) (next : TransferState)
      → step s ≡ (ok next, t)
      → t.state ≡ st
      → is_allowed st next ≡ true
      → round steps s ≡ again (record t { state = next })
  unfolding transition
  round_step t next e' h' allowed =
      let go : is_allowed t.state next ≡ true =
        subst (λ x. is_allowed x next ≡ true) (sym h') allowed in
      stepped ∙ ap (after_step st) e' ∙ rw go

  -- A step that fails ends `Run`.
  pub round_step_fails :
      (t : Session) (cause : Error)
      → step s ≡ (err cause, t)
      → round steps s ≡ returned (err (wrap (to_string st) cause)) (record t { state = error })
  unfolding fail
  round_step_fails t cause e' = stepped ∙ ap (after_step st) e'

-- A step that succeeds is followed by the next round.
pub run_step :
    (steps : StepTable) (fuel : ℕ) (s t : Session) (st next : TransferState) (step : Step)
    → s.state ≡ st
    → IsWorking st
    → steps st ≡ some step
    → step s ≡ (ok next, t)
    → t.state ≡ st
    → is_allowed st next ≡ true
    → run (suc fuel) steps s ≡ run fuel steps (record t { state = next })
unfolding run
run_step steps fuel s t st next step h w e e' h' allowed =
    ap (follow (run fuel steps)) (round_step steps s st step h w e t next e' h' allowed)

-- `Run` returns at once in the state `finished`.
pub run_finished :
    (steps : StepTable) (fuel : ℕ) (s : Session)
    → s.state ≡ finished
    → run (suc fuel) steps s ≡ some (ok tt, s)
unfolding run
run_finished steps fuel s h = ap (λ st. follow (run fuel steps) (dispatch st steps s)) h

module _ (At : TransferState → Session → Type 0) (rank : TransferState → Session → ℕ) where
  -- What a step from the state `st` does: an allowed transition to a state whose invariant holds
  -- and which is nearer to the end, or an error.
  abbrev pub Leads : TransferState → Session → Result TransferState × Session → Type 0
  Leads st s (ok next, t) =
      (t.state ≡ st) × (is_allowed st next ≡ true) × At next t × (rank next t < rank st s)
  Leads st s (err e, t) = Unit
  Leads st s (panic, t) = ⊥
  Leads st s (fatal e, t) = ⊥

  abbrev pub Goes : TransferState → Session → Round → Type 0
  Goes st s (returned (ok _) t) = (t.state ≡ finished) × At finished t
  Goes st s (returned (err e) t) = (t.state ≡ error) × StepError e
  Goes st s (returned panic t) = ⊥
  Goes st s (returned (fatal e) t) = ⊥
  Goes st s (again t) = At t.state t × (rank t.state t < rank st s)

  after_step-Goes :
      (st : TransferState) (s : Session) (r : Result TransferState × Session)
      → ((next : TransferState) (t : Session) → At next t → At next (record t { state = next }))
      → ((next : TransferState) (t : Session) → rank next (record t { state = next }) ≡ rank next t)
      → Leads st s r
      → Goes st s (after_step st r)
  unfolding transition fail
  after_step-Goes st s (ok next, t) keeps same (h, allowed, at, less) =
      let go : is_allowed t.state next ≡ true =
        subst (λ x. is_allowed x next ≡ true) (sym h) allowed in
      rw go (keeps next t at, omega (arith, same next t))
  after_step-Goes st s (err e, t) keeps same l = (refl, (st, e, refl))
  after_step-Goes st s (panic, t) keeps same l = absurd l
  after_step-Goes st s (fatal e, t) keeps same l = absurd l

  pub round-Goes :
      (steps : StepTable) (st : TransferState) (s : Session) (step : Step)
      → ((next : TransferState) (t : Session) → At next t → At next (record t { state = next }))
      → ((next : TransferState) (t : Session) → rank next (record t { state = next }) ≡ rank next t)
      → s.state ≡ st
      → IsWorking st
      → steps st ≡ some step
      → Leads st s (step s)
      → Goes st s (round steps s)
  unfolding round
  round-Goes steps st s step keeps same h w e l =
      subst (Goes st s)
        (sym (
          ap (λ x. dispatch x steps s) h
          ∙ dispatch_working st steps s w
          ∙ ap (λ o. take_step st o s) e))
        (after_step-Goes st s (step s) keeps same l)

  -- The table has a step for the state of the session, and that step leads on.
  abbrev pub Driven : StepTable → TransferState → Session → Type 0
  Driven steps st s = (step : Step) × (steps st ≡ some step) × Leads st s (step s)

  follow-Ended :
      (rest : Session → Option (Result (Unit {0}) × Session)) (st : TransferState) (s : Session)
      (r : Round)
      → Goes st s r
      → ((t : Session) → At t.state t → rank t.state t < rank st s → Ended At (rest t))
      → Ended At (follow rest r)
  follow-Ended rest st s (returned (ok _) t) g h = g
  follow-Ended rest st s (returned (err e) t) g h = g
  follow-Ended rest st s (returned panic t) g h = g
  follow-Ended rest st s (returned (fatal e) t) g h = g
  follow-Ended rest st s (again t) g h = h t g.0 g.1

  pub round_finished :
      (steps : StepTable) (s : Session) → s.state ≡ finished → round steps s ≡ returned (ok tt) s
  unfolding round
  round_finished steps s h = ap (λ st. dispatch st steps s) h

  -- With more fuel than the rank of the session, `Run` ends as stated above.
  pub run-Ended :
      (steps : StepTable)
      → ((next : TransferState) (t : Session) → At next t → At next (record t { state = next }))
      → ((next : TransferState) (t : Session) → rank next (record t { state = next }) ≡ rank next t)
      → ((s : Session) → At error s → ⊥)
      → ((st : TransferState) (s : Session)
          → s.state ≡ st
          → IsWorking st
          → At st s
          → Driven steps st s)
      → (fuel : ℕ) (s : Session) → At s.state s
      → rank s.state s < fuel
      → Ended At (run fuel steps s)
  unfolding run
  run-Ended steps keeps same never drive zero s at less = absurd (omega arith)
  run-Ended steps keeps same never drive (suc fuel) s at less = elim (IsWorking-cases s.state) [
    | inl (inl h) ↦
        subst (λ r. Ended At (follow (run fuel steps) r)) (sym (round_finished steps s h))
          (h, subst (λ st. At st s) h at)
    | inl (inr h) ↦ absurd (never s (subst (λ st. At st s) h at))
    | inr w ↦
        let (step, e, l) = drive s.state s refl w at in
        follow-Ended (run fuel steps) s.state s (round steps s)
          (round-Goes steps s.state s step keeps same refl w e l)
          λ t at' less'. run-Ended steps keeps same never drive fuel t at' (omega arith)
  ]

follow_more :
    (rest rest' : Session → Option (Result (Unit {0}) × Session)) (r : Round)
    (o : Result (Unit {0}) × Session)
    → ((t : Session) → rest t ≡ some o → rest' t ≡ some o)
    → follow rest r ≡ some o
    → follow rest' r ≡ some o
follow_more rest rest' (returned x t) o h e = e
follow_more rest rest' (again t) o h e = h t e

-- What `Run` returns, it returns with more fuel, too.
pub run_more :
    (steps : StepTable) (fuel more : ℕ) (s : Session) (o : Result (Unit {0}) × Session)
    → fuel ≤ more
    → run fuel steps s ≡ some o
    → run more steps s ≡ some o
unfolding run
run_more steps zero more s o h e = absurd (cc e)
run_more steps (suc fuel) zero s o h e = absurd (omega arith)
run_more steps (suc fuel) (suc more) s o h e =
    follow_more (run fuel steps) (run more steps) (round steps s) o
      (λ t. run_more steps fuel more t o (omega arith)) e

-- A step leads to all that follows from where it leads.
pub Leads-map :
    (At At' : TransferState → Session → Type 0) (rank : TransferState → Session → ℕ)
    (st : TransferState) (s : Session) (r : Result TransferState × Session)
    → ((next : TransferState) (t : Session) → At next t → At' next t)
    → Leads At rank st s r
    → Leads At' rank st s r
Leads-map At At' rank st s (ok next, t) map (same, allowed, at, less) =
    (same, allowed, map next t at, less)
Leads-map At At' rank st s (err e, t) map l = tt
Leads-map At At' rank st s (panic, t) map l = l
Leads-map At At' rank st s (fatal e, t) map l = l
