-- ===== src/Reservation/Window.antt =====
-- The booking window of reservation/domain.py: `window_end` and `start_at_from`.
use tag2now_be.Prelude.{ℕ, ◌+◌, ◌*◌, ◌≤◌, ◌<◌, ◌≡◌, ◌↔◌, ok, arith}
use tag2now_be.Time.{Instant, hour, day, time_of_day}
use tag2now_be.Reservation.Domain.{window_end, next_at, start_at_from, lead_time, day_end_hour}

-- The window ends after now, within one day, and its end reads 06:00 on Seoul's clock.
pub window_end_bounds :
    (seoul : ℕ) (now : Instant)
    → (now < window_end seoul now)
      × (window_end seoul now ≤ now + day)
      × (time_of_day (window_end seoul now + seoul) ≡ day_end_hour * hour)
unfolding window_end
window_end_bounds seoul now = (ground arith, ground arith, ground arith)

-- Whatever later instant reads 06:00 on Seoul's clock, the window ends no later than that one.
pub window_end_first :
    (seoul : ℕ) (now t : Instant)
    → now < t
    → time_of_day (t + seoul) ≡ day_end_hour * hour
    → window_end seoul now ≤ t
unfolding window_end
window_end_first seoul now t later reads = ground arith

module _ (seoul start_time : ℕ) (now : Instant) (after_first_day : day ≤ now)
    (timed : start_time < day) where
  -- The rolled time is the one instant within a day from now that shows this time of day.
  pub next_at_bounds :
      (now ≤ next_at seoul start_time now)
      × (next_at seoul start_time now < now + day)
      × (time_of_day (next_at seoul start_time now + seoul) ≡ start_time)
  unfolding next_at
  next_at_bounds = (ground arith, ground arith, ground arith)

  pub next_at_unique :
      (t : Instant)
      → now ≤ t
      → t < now + day
      → time_of_day (t + seoul) ≡ start_time
      → next_at seoul start_time now ≡ t
  unfolding next_at
  next_at_unique t from to reads = ground arith

  start_at_from-accepted :
      (t : Instant)
      → start_at_from seoul start_time now ≡ ok t
      → (time_of_day (t + seoul) ≡ start_time) × (now + lead_time ≤ t) × (t < window_end seoul now)
  unfolding start_at_from
  start_at_from-accepted t e =
      (ground (arith, next_at_bounds), ground (arith, next_at_bounds), ground arith)

  start_at_from-found :
      (t : Instant)
      → time_of_day (t + seoul) ≡ start_time
      → now + lead_time ≤ t
      → t < window_end seoul now
      → start_at_from seoul start_time now ≡ ok t
  unfolding start_at_from
  start_at_from-found t reads lead before =
      let bounds = window_end_bounds seoul now in
      rw (next_at_unique t (omega arith) (omega arith) reads) (ground arith)

  -- For a clock past its first day and a time of day below 24 hours, a booking is accepted at `t`
  -- exactly when `t` shows the chosen time of day on Seoul's clock, leaves the lead time, and lies
  -- before the window's end.
  pub start_at_from_iff :
      (t : Instant)
      → (start_at_from seoul start_time now ≡ ok t) ↔ (
          (time_of_day (t + seoul) ≡ start_time)
          × (now + lead_time ≤ t)
          × (t < window_end seoul now))
  start_at_from_iff t = (start_at_from-accepted t, λ h. start_at_from-found t h.0 h.1 h.2)
