-- ===== src/Chat/Domain.antt =====
-- chat/domain.py: the play day, the messages and the events.
use tag2now_be.Prelude.{ℕ, ◌+◌, ◌-◌, ◌*◌, ◌≤◌, ◌<◌, ◌≡◌, String, Bool, arith, ltb, if◌then◌else◌}
use tag2now_be.Time.{Instant, hour, day, at_time_of_day, time_of_day}
use tag2now_be.Reservation.Domain.{window_end}

abbrev pub day_start_hour : ℕ
day_start_hour = 6

abbrev pub max_listed_messages : ℕ
max_listed_messages = 500

pub record Message : Type 0 where
  pub id : ℕ
  pub author_username : String
  pub author_online_name : String
  pub body : String
  pub created_at : Instant
  pub author_admin : Bool

pub data ChatEvent : Type 0 where
  posted : Message → ChatEvent
  deleted : ℕ → ChatEvent

unfoldable pub day_start : ℕ → Instant → Instant
day_start seoul now =
    let kst_now = now + seoul in
    let start = at_time_of_day kst_now (day_start_hour * hour) in
    (if ltb kst_now start then start - day else start) - seoul

unfoldable pub history_start : ℕ → Instant → Instant
unfolding day_start
history_start seoul now = day_start seoul now - day

-- For a clock past its first day, the play day of an instant opens at 06:00 in Seoul, no later than
-- the instant, and the instant falls within one day of it.
pub day_start_bounds :
    (seoul : ℕ) (now : Instant)
    → day ≤ now
    → (day_start seoul now ≤ now)
      × (now < day_start seoul now + day)
      × (time_of_day (day_start seoul now + seoul) ≡ day_start_hour * hour)
unfolding day_start
day_start_bounds seoul now h = (ground arith, ground arith, ground arith)

-- For a clock past its first day, the booking window of the reservations ends with the play day.
pub window_end-day_start :
    (seoul : ℕ) (now : Instant) → day ≤ now → window_end seoul now ≡ day_start seoul now + day
unfolding day_start window_end
window_end-day_start seoul now h = ground arith

-- For a clock past its second day, the history reaches back over the current play day and the whole
-- one before it, and the same instants of a play day have the same history.
pub history_start_bounds :
    (seoul : ℕ) (now later : Instant)
    → 2 * day ≤ now
    → now ≤ later
    → later < day_start seoul now + day
    → (history_start seoul now + day ≡ day_start seoul now)
      × (history_start seoul later ≡ history_start seoul now)
unfolding history_start
history_start_bounds seoul now later h after same = (ground arith, ground arith)
