-- ===== src/Transfer/Parties.antt =====
-- The turns that one of two parties can take: a round of `Run` in Protocol/fsm.go.
use file_transfer_using_libp.Base.{
  ℕ, ◌≡◌, sym, ap, ◌∙◌, true, some, List, [], ◌∷◌, ◌++◌, append-nil, Error, eof, ok, err,
}
use file_transfer_using_libp.Protocol.State.{TransferState, is_allowed}
use file_transfer_using_libp.Protocol.Session.{Session}
use file_transfer_using_libp.Protocol.Fsm.{Step, StepTable, Round, returned, again, round}
use file_transfer_using_libp.Protocol.Progress.{
  IsWorking, round_step, round_step_fails, round_finished,
}
use file_transfer_using_libp.Transfer.Turns.{Party, Turn, completes, waits, root_cause, party}

append_cancel : (xs ys zs : List ℕ) → xs ++ ys ≡ xs ++ zs → ys ≡ zs
append_cancel [] ys zs e = e
append_cancel (x ∷ xs) ys zs e = append_cancel xs ys zs (cc e)

abbrev session_of : Session → Round → Session
session_of s (again t) = t
session_of s (returned r t) = t

module _ (steps : StepTable) where
  -- The only turn of a party.
  pub record OneTurn (p q : Party) (said : List ℕ) : Type 0 where
    pub turn : Turn steps p q said
    pub only : (q' : Party) (said' : List ℕ) → Turn steps p q' said' → (q' ≡ q) × (said' ≡ said)

  -- A turn of that party changes nothing and says nothing.
  abbrev pub Quiet : Party → Type 0
  Quiet p = (q : Party) (said : List ℕ) → Turn steps p q said → (q ≡ p) × (said ≡ [])

  only_completes :
      (p q' : Party) (t : Session) (said said' : List ℕ)
      → round steps p.session ≡ again t
      → t.conn.outgoing ≡ p.session.conn.outgoing ++ (p.ahead ++ said)
      → Turn steps p q' said'
      → (q' ≡ party t []) × (said' ≡ said)
  only_completes _ _ t said said' r w (completes s t' ahead _ r' w') =
      let same : t' ≡ t = ap (session_of s) (sym r' ∙ r) in
      (
        ap (λ x. party x []) same,
        append_cancel ahead said' said (
            append_cancel s.conn.outgoing (ahead ++ said') (ahead ++ said)
              (sym w' ∙ ap (λ x. x.conn.outgoing) same ∙ w)),
      )
  only_completes _ _ t said said' r w (waits s t' e ahead _ r' c w') = cc (sym r' ∙ r)

  only_waits :
      (p q' : Party) (t : Session) (e : Error) (said said' : List ℕ)
      → round steps p.session ≡ returned (err e) t
      → t.conn.outgoing ≡ p.session.conn.outgoing ++ (p.ahead ++ said)
      → Turn steps p q' said'
      → (q' ≡ party p.session (p.ahead ++ said)) × (said' ≡ said)
  only_waits _ _ t e said said' r w (completes s t' ahead _ r' w') = cc (sym r' ∙ r)
  only_waits _ _ t e said said' r w (waits s t' e' ahead _ r' c w') =
      let same : t' ≡ t = ap (session_of s) (sym r' ∙ r) in
      let said_same : said' ≡ said = append_cancel ahead said' said (
        append_cancel s.conn.outgoing (ahead ++ said') (ahead ++ said)
          (sym w' ∙ ap (λ x. x.conn.outgoing) same ∙ w)) in
      (ap (λ x. party s (ahead ++ x)) said_same, said_same)

  module _ (s : Session) (ahead : List ℕ) (st : TransferState) (step : Step) (h : s.state ≡ st)
      (w : IsWorking st) (e : steps st ≡ some step) (t : Session) where
    -- A step that succeeds.
    pub one_round :
        (next : TransferState) (said : List ℕ)
        → step s ≡ (ok next, t)
        → t.state ≡ st
        → is_allowed st next ≡ true
        → t.conn.outgoing ≡ s.conn.outgoing ++ (ahead ++ said)
        → OneTurn (party s ahead) (party (record t { state = next }) []) said
    one_round next said e' h' allowed written =
        let r = round_step steps s st step h w e t next e' h' allowed in
        record {
          turn = completes s (record t { state = next }) ahead said r written;
          only = λ q' said' u.
              only_completes (party s ahead) q' (record t { state = next }) said said' r written u;
        }

    -- A step that waits for bytes, and has written some.
    pub one_wait :
        (cause : Error) (said : List ℕ)
        → step s ≡ (err cause, t)
        → root_cause cause ≡ eof
        → t.conn.outgoing ≡ s.conn.outgoing ++ (ahead ++ said)
        → OneTurn (party s ahead) (party s (ahead ++ said)) said
    one_wait cause said e' c written =
        let r = round_step_fails steps s st step h w e t cause e' in
        record {
          turn = waits s (record t { state = TransferState.error }) _ ahead said r c written;
          only = λ q' said' u.
              only_waits (party s ahead) q' (record t { state = TransferState.error }) _ said said'
                r written u;
        }

    -- A step that waits for bytes, and has written nothing, or nothing more.
    pub wait-Quiet :
        (cause : Error)
        → step s ≡ (err cause, t)
        → t.conn.outgoing ≡ s.conn.outgoing ++ ahead
        → Quiet (party s ahead)
    wait-Quiet cause e' written q said u =
        let r = round_step_fails steps s st step h w e t cause e' in
        let (same, said_same) =
          only_waits (party s ahead) q (record t { state = TransferState.error }) _ [] said r
            (written ∙ ap (λ x. s.conn.outgoing ++ x) (sym (append-nil ahead))) u in
        (same ∙ ap (party s) (append-nil ahead), said_same)

  returned-Turn :
      (p q : Party) (said : List ℕ) (t : Session)
      → round steps p.session ≡ returned (ok tt) t
      → Turn steps p q said
      → ⊥
  returned-Turn _ _ said t r (completes s t' ahead _ r' w') = cc (sym r' ∙ r)
  returned-Turn _ _ said t r (waits s t' e ahead _ r' c w') = cc (sym r' ∙ r)

  -- There is no turn once the session is finished.
  pub finished-Quiet :
      (s : Session) (ahead : List ℕ) → s.state ≡ TransferState.finished → Quiet (party s ahead)
  finished-Quiet s ahead h q said u = absurd (
      returned-Turn (party s ahead) q said s (round_finished (λ st x. Unit) (λ st x. 0) steps s h)
        u)
