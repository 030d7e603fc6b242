-- ===== src/P2P/Watch.antt =====
-- `WatchForDirectUpgrade` of P2P/host.go: what it logs while it polls the connections to a peer. The
-- `select` may take any case that is ready, so a run is a list of the cases that it took, each with
-- what `connKindToPeer` then answered.
use file_transfer_using_libp.Base.{Bool, true, false, List, [], ◌∷◌, ◌++◌, ◌≡◌, refl, if◌then◌else◌}
use file_transfer_using_libp.P2P.{ConnKind, no_conn, relayed, direct}

pub data Event : Type 0 where
  cancelled : Event  -- ctx.Done()
  deadline tick : ConnKind → Event

pub data Log : Type 0 where
  start_hole_punch end_hole_punch connected_directly timed_out known_addresses : Log

-- One round of the loop: it logs and returns, or logs and goes on with the flag.
pub data WatchRound : Type 0 where
  stops : List Log → WatchRound
  goes_on : Bool → List Log → WatchRound

abbrev pub at_deadline : ConnKind → WatchRound
at_deadline direct = stops []
at_deadline _ = stops (timed_out ∷ known_addresses ∷ [])

-- The body of the `for`, with the flag `announcedRelayed`.
unfoldable pub watch_round : Bool → Event → WatchRound
watch_round announced cancelled = stops []
watch_round announced (deadline k) = if announced then at_deadline k else stops []
watch_round announced (tick relayed) =
    if announced then goes_on true [] else goes_on true (start_hole_punch ∷ [])
watch_round announced (tick direct) =
    if announced then stops (end_hole_punch ∷ []) else stops (connected_directly ∷ [])
watch_round announced (tick no_conn) = goes_on announced []

abbrev pub then_logs : WatchRound → (Bool → List Log) → List Log
then_logs (stops logs) rest = logs
then_logs (goes_on announced logs) rest = logs ++ rest announced

-- What is logged from a round on, in the course of those events.
unfoldable pub watch_from : List Event → Bool → List Log
unfolding watch_round
watch_from [] announced = []
watch_from (e ∷ events) announced = then_logs (watch_round announced e) (watch_from events)

-- `WatchForDirectUpgrade`.
unfoldable pub watch_for_direct_upgrade : List Event → List Log
unfolding watch_from
watch_for_direct_upgrade events = watch_from events false

-- What a watch tells of a peer, when nobody looks at how it was found out: nothing, that a direct
-- connection was there from the start, or the course of a hole punch.
pub data Story : Type 0 where
  silent seen_direct : Story
  punching punched gave_up : Story

abbrev pub told : Story → List Log
told silent = []
told seen_direct = connected_directly ∷ []
told punching = start_hole_punch ∷ []
told punched = start_hole_punch ∷ end_hole_punch ∷ []
told gave_up = start_hole_punch ∷ timed_out ∷ known_addresses ∷ []

-- The specification: the events up to the first that ends the watch decide the story.
abbrev pub after_relayed : List Event → Story
after_relayed [] = punching
after_relayed (cancelled ∷ events) = punching
after_relayed (deadline direct ∷ events) = punching
after_relayed (deadline _ ∷ events) = gave_up
after_relayed (tick direct ∷ events) = punched
after_relayed (tick _ ∷ events) = after_relayed events

abbrev pub story : List Event → Story
story [] = silent
story (cancelled ∷ events) = silent
story (deadline _ ∷ events) = silent
story (tick no_conn ∷ events) = story events
story (tick direct ∷ events) = seen_direct
story (tick relayed ∷ events) = after_relayed events

watch_announced :
    (events : List Event) → start_hole_punch ∷ watch_from events true ≡ told (after_relayed events)
unfolding watch_from
watch_announced [] = refl
watch_announced (cancelled ∷ events) = refl
watch_announced (deadline no_conn ∷ events) = refl
watch_announced (deadline relayed ∷ events) = refl
watch_announced (deadline direct ∷ events) = refl
watch_announced (tick no_conn ∷ events) = watch_announced events
watch_announced (tick relayed ∷ events) = watch_announced events
watch_announced (tick direct ∷ events) = refl

-- Whatever the connections do, the log of a watch is the story of its events: nothing; a direct
-- connection; or one start of a hole punch, followed by nothing, by its one end once a tick finds a
-- direct connection, or, at the deadline without one, by the line that gives it up and the line with
-- the peer's addresses.
pub watch_for_direct_upgrade-told :
    (events : List Event) → watch_for_direct_upgrade events ≡ told (story events)
unfolding watch_for_direct_upgrade
watch_for_direct_upgrade-told [] = refl
watch_for_direct_upgrade-told (cancelled ∷ events) = refl
watch_for_direct_upgrade-told (deadline k ∷ events) = refl
watch_for_direct_upgrade-told (tick no_conn ∷ events) = watch_for_direct_upgrade-told events
watch_for_direct_upgrade-told (tick relayed ∷ events) = watch_announced events
watch_for_direct_upgrade-told (tick direct ∷ events) = refl
