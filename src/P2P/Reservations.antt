-- ===== src/P2P/Reservations.antt =====
-- `keepReservationAlive` of P2P/host.go: the loop that renews a reservation with a relay. Times are
-- nanoseconds since some start.
use file_transfer_using_libp.Base.{
  ℕ, ◌+◌, ◌-◌, ◌*◌, ◌≤◌, ◌<◌, ◌≡◌, Option, none, some, List, [], ◌∷◌, ltb, if◌then◌else◌, arith,
  length,
}

abbrev pub second : ℕ
second = 1000000000

-- The time, and when the reservation ends.
pub record Clock : Type 0 where
  pub now : ℕ
  pub expiration : ℕ

-- What happens in one round: how much longer than asked the first sleep takes, how long `Reserve`
-- takes, the end of the new reservation if it gives one, and how much longer than asked the sleep
-- after a failure takes.
pub record Attempt : Type 0 where
  pub overslept : ℕ
  pub took : ℕ
  pub granted : Option ℕ
  pub overslept_again : ℕ

-- `wait`. What `time.Until` gives for a time that is over is negative, and less than 5 seconds.
unfoldable pub wait : Clock → ℕ
wait c = let w = c.expiration - c.now - 30 * second in if ltb w (5 * second) then 5 * second else w

-- When the round calls `Reserve`.
abbrev pub asks_at : Clock → Attempt → ℕ
asks_at c a = c.now + wait c + a.overslept

abbrev pub renewed : ℕ → Option ℕ → Attempt → Clock → Clock
renewed t none a c = record c { now = t + 10 * second + a.overslept_again }
renewed t (some expiration) a c = record { now = t; expiration = expiration }

-- One round of the loop.
unfoldable pub keep_round : Clock → Attempt → Clock
unfolding wait
keep_round c a = renewed (asks_at c a + a.took) a.granted a c

-- `keepReservationAlive` in the course of those attempts.
unfoldable pub keep_reservation_alive : List Attempt → Clock → Clock
unfolding keep_round
keep_reservation_alive [] c = c
keep_reservation_alive (a ∷ attempts) c = keep_reservation_alive attempts (keep_round c a)

keep_round_wait : (c : Clock) (a : Attempt) → c.now + 5 * second ≤ (keep_round c a).now
unfolding keep_round
keep_round_wait c a = ground arith

-- The loop never spins: `n` rounds take at least `5 * n` seconds, whatever the relay answers.
pub keep_reservation_alive_slow :
    (attempts : List Attempt) (c : Clock)
    → c.now + 5 * second * length attempts ≤ (keep_reservation_alive attempts c).now
unfolding keep_reservation_alive
keep_reservation_alive_slow [] c = omega arith
keep_reservation_alive_slow (a ∷ attempts) c =
    omega (arith, keep_round_wait c a, keep_reservation_alive_slow attempts (keep_round c a))

-- A reservation that holds for 35 seconds or more is asked to be renewed 30 seconds before its end,
-- up to what the process oversleeps; if `Reserve` gives a new one in less than 30 seconds less that,
-- it is there before the old one ends.
pub keep_round_in_time :
    (c : Clock) (a : Attempt) (until : ℕ)
    → c.now + 35 * second ≤ c.expiration
    → a.granted ≡ some until
    → a.overslept + a.took < 30 * second
    → (asks_at c a ≡ c.expiration - 30 * second + a.overslept)
      × ((keep_round c a).now < c.expiration)
      × ((keep_round c a).expiration ≡ until)
unfolding keep_round
keep_round_in_time c a until long given quick = ground arith

-- Of a reservation that holds for 35 seconds or more, where a first attempt to renew it fails and the
-- next succeeds: it succeeds before the end of the reservation, if both attempts and what is overslept
-- take less than 15 seconds together.
pub keep_reservation_alive_retry :
    (c : Clock) (a b : Attempt) (until : ℕ)
    → c.now + 35 * second ≤ c.expiration
    → a.granted ≡ none
    → b.granted ≡ some until
    → a.overslept + a.took + a.overslept_again + b.overslept + b.took < 15 * second
    → ((keep_reservation_alive (a ∷ b ∷ []) c).now < c.expiration)
      × ((keep_reservation_alive (a ∷ b ∷ []) c).expiration ≡ until)
unfolding keep_reservation_alive
keep_reservation_alive_retry c a b until long failed' given quick =
    unfold keep_round in ground arith
