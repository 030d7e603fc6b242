-- ===== src/Protocol/Paths/Runs.antt =====
-- The states that `Run` passes through, as a path through the transition table.
use file_transfer_using_libp.Base.{
  ℕ, zero, suc, ◌≡◌, refl, sym, ap, ◌∙◌, subst, inl, inr, true, some, List, [], ◌∷◌, Result, ok,
  err, panic, fatal,
}
use file_transfer_using_libp.Protocol.State.{TransferState, finished, error, is_allowed}
use file_transfer_using_libp.Protocol.Session.{Session, transition, fail}
use file_transfer_using_libp.Protocol.Fsm.{
  Step, StepTable, Round, returned, again, round, run, follow, after_step,
}
use file_transfer_using_libp.Protocol.Progress.{
  IsWorking, IsWorking-cases, Leads, round_finished, stepped,
}

-- The states after the first of at most so many rounds of `Run`.
abbrev follow_states : (Session → List TransferState) → Round → List TransferState
follow_states rest (returned r t) = []
follow_states rest (again t) = t.state ∷ rest t

unfoldable pub states : ℕ → StepTable → Session → List TransferState
states zero steps s = []
states (suc fuel) steps s = follow_states (states fuel steps) (round steps s)

-- A step after which a path that is expected of the next session, with the next state before it, is
-- expected of the session before the step.
abbrev pub Adds :
    (TransferState → Session → List TransferState → Type 0)
    → TransferState
    → Session
    → Result TransferState × Session
    → Type 0
Adds Expect st s (ok next, t) =
    (path : List TransferState) → Expect next t path → Expect st s (next ∷ path)
Adds Expect st s (err e, t) = Unit
Adds Expect st s (panic, t) = Unit
Adds Expect st s (fatal e, t) = Unit

module _ (At : TransferState → Session → Type 0) (rank : TransferState → Session → ℕ)
    (steps : StepTable) (Expect : TransferState → Session → List TransferState → Type 0)
    (keeps : (next : TransferState) (t : Session) → At next t → At next (record t { state = next }))
    (keeps_path : (next : TransferState) (t : Session) (path : List TransferState)
      → Expect next (record t { state = next }) path
      → Expect next t path)
    (never : (s : Session) → At error s → ⊥)
    (drive : (st : TransferState) (s : Session)
      → s.state ≡ st
      → IsWorking st
      → At st s
      → (step : Step) × (steps st ≡ some step)
        × Leads At rank st s (step s)
        × Adds Expect st s (step s)) where
  -- A round adds a state to what is expected, and keeps the invariant; or it is the end.
  abbrev Along : Session → Round → Type 0
  Along s (returned (ok _) t) = (s.state ≡ finished) × (t ≡ s)
  Along s (returned _ t) = Unit
  Along s (again t) =
      At t.state t
      × ((path : List TransferState) → Expect t.state t path → Expect s.state s (t.state ∷ path))

  after_step-Along :
      (s : Session) (r : Result TransferState × Session)
      → Leads At rank s.state s r
      → Adds Expect s.state s r
      → Along s (after_step s.state r)
  unfolding transition fail
  after_step-Along s (ok next, t) (same, allowed, at, _) adds =
      let go : is_allowed t.state next ≡ true =
        subst (λ x. is_allowed x next ≡ true) (sym same) allowed in
      rw go (keeps next t at, λ path x. adds path (keeps_path next t path x))
  after_step-Along s (err e, t) l a = tt
  after_step-Along s (panic, t) l a = tt
  after_step-Along s (fatal e, t) l a = tt

  round-Along : (s : Session) → At s.state s → Along s (round steps s)
  round-Along s at = elim (IsWorking-cases s.state) [
    | inl (inl done) ↦ subst (Along s) (sym (round_finished At rank steps s done)) (done, refl)
    | inl (inr failed) ↦ absurd (never s (subst (λ st. At st s) failed at))
    | inr w ↦
        let (step, is_step, l, a) = drive s.state s refl w at in
        subst (Along s) (sym (stepped steps s s.state step refl w is_step))
          (after_step-Along s (step s) l a)
  ]

  followed :
      (fuel : ℕ) (s t : Session) (r : Round)
      → Along s r
      → (t.state ≡ finished → Expect t.state t [])
      → ((u : Session)
          → At u.state u
          → run fuel steps u ≡ some (ok tt, t)
          → Expect u.state u (states fuel steps u))
      → follow (run fuel steps) r ≡ some (ok tt, t)
      → Expect s.state s (follow_states (states fuel steps) r)
  followed fuel s t (returned (ok _) u) (is_finished, same) done rest e =
      let is_u : u ≡ t = cc e in
      let is_t : t ≡ s = sym is_u ∙ same in
      subst (λ v. Expect v.state v []) is_t (done (ap (λ v. v.state) is_t ∙ is_finished))
  followed fuel s t (returned (err e') u) h done rest e = absurd (cc e)
  followed fuel s t (returned panic u) h done rest e = absurd (cc e)
  followed fuel s t (returned (fatal e') u) h done rest e = absurd (cc e)
  followed fuel s t (again u) (at, adds) done rest e = adds _ (rest u at e)

  -- The states of a run that returns no error are as expected, where nothing more is expected of the
  -- session that it returns.
  pub run-Expect :
      (fuel : ℕ) (s t : Session)
      → At s.state s
      → (t.state ≡ finished → Expect t.state t [])
      → run fuel steps s ≡ some (ok tt, t)
      → Expect s.state s (states fuel steps s)
  unfolding run states
  run-Expect zero s t at done e = absurd (cc e)
  run-Expect (suc fuel) s t at done e =
      followed fuel s t (round steps s) (round-Along s at) done
        (λ u at' e'. run-Expect fuel u t at' done e') e
