-- ===== src/Protocol/Fsm.antt =====
-- Protocol/fsm.go: the loop that drives a session until it is finished or has failed.
use file_transfer_using_libp.Base.{ℕ, zero, suc, Option, none, some}
use file_transfer_using_libp.Base.{Error, failed, wrap, no_step, Result, ok, err, panic, fatal, Act}
use file_transfer_using_libp.Protocol.State.{TransferState, finished, error, to_string}
use file_transfer_using_libp.Protocol.Session.{Session, get_state, transition, fail}

abbrev pub Step : Type 0
Step = Act Session TransferState

-- The map from states to steps; `none` where it has no entry.
abbrev pub StepTable : Type 0
StepTable = TransferState → Option Step

-- One round of the loop of `Run`: it returns, or the next round begins.
pub data Round : Type 0 where
  returned : Result (Unit {0}) → Session → Round
  again : Session → Round

abbrev pub return_pair : Result (Unit {0}) × Session → Round
return_pair (r, s) = returned r s

abbrev pub after_transition : Result (Unit {0}) × Session → Round
after_transition (ok _, s) = again s
after_transition (err e, s) = return_pair (fail e s)
after_transition (panic, s) = returned panic s
after_transition (fatal e, s) = returned (fatal e) s

abbrev pub step_failed : TransferState → Error → Error
step_failed current e = wrap (to_string current) e

abbrev pub after_step : TransferState → Result TransferState × Session → Round
after_step current (ok next, s) = after_transition (transition next s)
after_step current (err e, s) = return_pair (fail (step_failed current e) s)
after_step current (panic, s) = returned panic s
after_step current (fatal e, s) = returned (fatal e) s

-- The look-up of the step, and its call.
abbrev pub take_step : TransferState → Option Step → Session → Round
take_step current none s = return_pair (fail (no_step (to_string current)) s)
take_step current (some step) s = after_step current (step s)

-- The two tests at the head of the loop.
abbrev pub dispatch : TransferState → StepTable → Session → Round
dispatch finished steps s = returned (ok tt) s
dispatch error steps s = returned (err (failed "session is in error state")) s
dispatch current steps s = take_step current (steps current) s

unfoldable pub round : StepTable → Session → Round
unfolding transition fail to_string
round steps s = dispatch (get_state s) steps s

-- What follows a round.
abbrev pub follow :
    (Session → Option (Result (Unit {0}) × Session)) → Round → Option (Result (Unit {0}) × Session)
follow rest (returned r t) = some (r, t)
follow rest (again t) = rest t

-- `Run`, with a bound on the rounds; `none` when the bound is too small.
unfoldable pub run : ℕ → StepTable → Session → Option (Result (Unit {0}) × Session)
unfolding round
run zero steps s = none
run (suc fuel) steps s = follow (run fuel steps) (round steps s)
