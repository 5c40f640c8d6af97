-- ===== src/Reservation/Tests.antt =====
-- Runs of the reservation code at concrete inputs, and its theorems there. Seoul is nine hours
-- ahead of UTC; the clock reads 05:00 UTC, 14:00 in Seoul, on the day after `base`.
use tag2now_be.Prelude.{
  ℕ, ◌+◌, ◌*◌, ◌≤◌, ◌<◌, String, ◌≡◌, ◌↔◌, refl, true, none, some, [], ◌∷◌, is_err, ok, arith,
  lookup, insert, count, select, map_values, sort_by, count_of, passing, IsSortedBy, ◌==◌,
}
use tag2now_be.Time.{Instant, hour, day, time_of_day}
use tag2now_be.Idempotency.Store.{
  Session, KeyRow, run_once, claim, complete, find_key, set_response,
}
use tag2now_be.Reservation.Domain.{
  player, opened, cancelled, window_end, next_at, start_at_from, ensure_conditions_valid, lead_time,
  day_end_hour,
}
use tag2now_be.Reservation.Rows.{ReservationRow, CommentRow, Tables, is_active_in}
use tag2now_be.Reservation.Rows.{Reservation, Participant, Changes}
use tag2now_be.Reservation.Statements.{
  to_reservation, with_participant_count, expire_finished, expire_row, expire_seat, finished,
}
use tag2now_be.Reservation.Repository.{
  create, join, update, cancel, cancel_participation, list_upcoming,
}
use tag2now_be.Reservation.Comments.{add_comment}
use tag2now_be.Reservation.Joining.{
  IsJoinable, join_iff, join-joined, joined_tables, joined_row, new_participant,
}
use tag2now_be.Reservation.Returning.{leave-join}
use tag2now_be.Reservation.Editing.{IsEditable, update_iff}
use tag2now_be.Reservation.Cancelling.{cancel-cancelled, cancelled_tables}
use tag2now_be.Reservation.Closing.{IsCancelled, cancel-IsCancelled, cancelled_refuses}
use tag2now_be.Reservation.Listing.{is_upcoming, comes_before, list_upcoming-once}
use tag2now_be.Reservation.Invariant.{IsConsistent}
use tag2now_be.Reservation.Service.{CreateRequest, create_reservation}
use tag2now_be.Reservation.Requests.{accepts_create, has_no_duplicates}
use tag2now_be.Reservation.History.{creating, here, next, Reach-IsConsistent}
use tag2now_be.Reservation.Window.{window_end_bounds, start_at_from_iff}

abbrev seoul : ℕ
seoul = 9 * hour

abbrev now : Instant
now = 800_000 * day + 5 * hour

window_end_at_two : window_end seoul now ≡ 800_000 * day + 21 * hour
unfolding window_end
window_end_at_two = refl

window_end_bounds_example :
    (now < window_end seoul now)
    × (window_end seoul now ≤ now + day)
    × (time_of_day (window_end seoul now + seoul) ≡ day_end_hour * hour)
window_end_bounds_example = window_end_bounds seoul now

-- At 14:00 in Seoul a host books 21:00.
start_at_from_evening : start_at_from seoul (21 * hour) now ≡ ok (800_000 * day + 12 * hour)
unfolding start_at_from next_at window_end
start_at_from_evening = refl

start_at_from_iff_example :
    (start_at_from seoul (21 * hour) now ≡ ok (800_000 * day + 12 * hour)) ↔ (
      (time_of_day (800_000 * day + 12 * hour + seoul) ≡ 21 * hour)
      × (now + lead_time ≤ 800_000 * day + 12 * hour)
      × (800_000 * day + 12 * hour < window_end seoul now))
start_at_from_iff_example =
    start_at_from_iff seoul (21 * hour) now (omega arith) (omega arith) (800_000 * day + 12 * hour)

abbrev later_changes : Changes
later_changes = record {
  start_at = some (800_000 * day + 13 * hour);
  ranks = none;
  match_type = none;
  capacity = some 2;
  memo = none;
}

abbrev empty : Tables
empty = record { reservations = []; participants = []; comments = [] }

abbrev evening : Instant
evening = 800_000 * day + 12 * hour

-- A host's open player match, with one place, tonight.
abbrev booked : ReservationRow
booked = record {
  start_at = evening;
  host_display_name = "Host";
  host_subject = some "host";
  host_ranks = [];
  match_type = player;
  capacity = 1;
  memo = "";
  status = opened;
  created_at = now;
  updated_at = now;
  cancelled_at = none;
  ended_at = none;
}

abbrev posted : Tables
posted = record { reservations = (1, booked) ∷ []; participants = []; comments = [] }

abbrev remark : CommentRow
remark = record {
  reservation_id = 1;
  author = "Ann";
  author_subject = some "ann";
  body = "hi";
  created_at = now;
  deleted_at = none;
}

abbrev discussed : Tables
discussed = record posted { comments = (4, remark) ∷ [] }

empty-IsConsistent : IsConsistent empty
unfolding count
empty-IsConsistent = record {
  rows_keyed = tt;
  keyed = tt;
  rows = λ id row e. absurd (ground arith);
  no_orphans = λ id e. refl;
}

abbrev request : CreateRequest
request = record {
  start_time = 21 * hour;
  ranks = [];
  match_type = player;
  capacity = 1;
  memo = "";
}

abbrev digest : String → CreateRequest → String
digest scope r = scope

abbrev to_id : Reservation → ℕ
to_id r = r.id

abbrev strip : String → String
strip s = s

abbrev key_row : KeyRow ℕ
key_row = record {
  subject = "host";
  key = "k";
  fingerprint = "reservation.create";
  response = some 1;
}

abbrev start : Session ℕ Tables
start = ([], empty)

abbrev first : Session ℕ Tables
first = (key_row ∷ [], posted)

create-first :
    create_reservation seoul strip ℕ digest to_id 1 now "host" "Host" request "k" now start
    ≡ ok (1, first)
unfolding create_reservation ensure_conditions_valid start_at_from next_at window_end run_once claim
    complete find_key set_response create insert to_reservation
create-first = refl

request-accepted : accepts_create request ≡ true
unfolding accepts_create has_no_duplicates
request-accepted = refl

Reach-IsConsistent_example : IsConsistent posted
Reach-IsConsistent_example =
    Reach-IsConsistent seoul strip ℕ digest to_id {s = start} {s' = first}
      (next here
        (creating 1 now "host" "Host" request "k" now 1 refl request-accepted create-first))
      empty-IsConsistent

join_iff_example :
    ((out : Reservation × Participant) × (db' : Tables) × (join 5 now 1 "ann" "Ann" [] now posted
        ≡ ok (out, db')))
    ↔ ((row : ReservationRow) × IsJoinable posted 1 "ann" now row)
join_iff_example = join_iff 5 now 1 "ann" "Ann" [] now posted

booked-IsJoinable : IsJoinable posted 1 "ann" now booked
unfolding count
booked-IsJoinable = record {
  found = refl;
  not_host = refl;
  not_joined = refl;
  still_open = refl;
  not_started = omega arith;
  has_room = omega arith;
}

abbrev seated : Tables
seated = joined_tables 5 now 1 "ann" "Ann" [] now posted booked

abbrev seated_out : Reservation × Participant
seated_out = (
  with_participant_count seated 1 (joined_row 5 now 1 "ann" "Ann" [] now posted booked),
  new_participant 5 now 1 "ann" "Ann" [] now,
)

leave-join_example :
    (out : Reservation) × (db'' : Tables) × (cancel_participation 1 "ann" now seated
      ≡ ok (out, db''))
    × (count (is_active_in 1) db''.participants ≡ count (is_active_in 1) posted.participants)
    × (out.status ≡ opened)
leave-join_example =
    leave-join 5 now 1 "ann" "Ann" [] now posted seated seated_out refl
      (join-joined 5 now 1 "ann" "Ann" [] now posted booked booked-IsJoinable)

update_iff_example :
    ((out : Reservation) × (db' : Tables) × (update 1 "host" now later_changes posted
        ≡ ok (out, db')))
    ↔ ((row : ReservationRow) × IsEditable posted 1 "host" now row)
update_iff_example = update_iff 1 "host" now later_changes posted

cancel-posted : cancel 1 "host" now posted ≡ ok (tt, cancelled_tables 1 "host" now posted booked)
cancel-posted =
    cancel-cancelled 1 "host" now posted booked
      (record { found = refl; by_host = refl; still_live = refl; not_started = omega arith })

cancel-IsCancelled_example :
    IsCancelled (cancelled_tables 1 "host" now posted booked) 1
    × (count (is_active_in 1) (cancelled_tables 1 "host" now posted booked).participants ≡ 0)
cancel-IsCancelled_example =
    cancel-IsCancelled 1 "host" now posted (cancelled_tables 1 "host" now posted booked) tt
      cancel-posted

abbrev called_off : Tables
called_off = record posted { reservations = (1, record booked { status = cancelled }) ∷ [] }

cancelled_refuses_example :
    (is_err (join 5 now 1 "ann" "Ann" [] now called_off) ≡ true)
    × (is_err (cancel_participation 1 "ann" now called_off) ≡ true)
    × (is_err (update 1 "ann" now later_changes called_off) ≡ true)
    × (is_err (cancel 1 "ann" now called_off) ≡ true)
    × (is_err (add_comment 5 now 1 "ann" "Ann" "hi" called_off) ≡ true)
cancelled_refuses_example =
    cancelled_refuses called_off 1 (record booked { status = cancelled }, refl, refl) 5 now "ann"
      "Ann" "hi" [] now later_changes

abbrev shown : Reservation
shown = record {
  id = 1;
  start_at = evening;
  host_display_name = "Host";
  host_ranks = [];
  match_type = player;
  capacity = 1;
  memo = "";
  status = opened;
  participant_count = 0;
  created_at = now;
  participants = [];
  host_username = some "host";
}

list_upcoming-posted : list_upcoming seoul now posted ≡ ok (shown ∷ [], posted)
unfolding list_upcoming expire_finished expire_row expire_seat finished select sort_by map_values
    window_end with_participant_count count
list_upcoming-posted = refl

list_upcoming-once_example :
    (count_of (λ r. r.id == 1) (shown ∷ [])
      ≡ passing (λ _. is_upcoming seoul now) 1 (lookup 1 posted.reservations))
    × IsSortedBy comes_before (shown ∷ [])
list_upcoming-once_example =
    list_upcoming-once seoul now posted (shown ∷ []) posted list_upcoming-posted (refl, tt) 1
