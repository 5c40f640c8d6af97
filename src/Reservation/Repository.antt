-- ===== src/Reservation/Repository.antt =====
-- reservation/adapters/postgresql.py: the methods of `PostgresReservationRepository`, each inside the
-- caller's transaction. A key and a timestamp that the database generates on an insert (`Identity`,
-- `server_default=now()`) are the arguments `id` and `at`.
use tag2now_be.Prelude.{
  ℕ, ◌+◌, String, Bool, false, ◌&&◌, Option, none, some, List, [], map, Result, ok, err, Error,
  integrity_error, Tx, pure, gets, lift, ◌>>=◌, ◌>>◌, find?, select, sort_by, is_some, get_or, ltb,
}
use tag2now_be.Time.{Instant}
use tag2now_be.Reservation.Domain.{
  opened, cancelled, MatchType, is_live, listing_grace, window_end, state_error, status_for,
  ensure_joinable_by, ensure_joinable, ensure_edited_by_host, ensure_editable,
  ensure_participation_cancellable, ensure_cancellable,
}
use tag2now_be.Reservation.Rows.{
  ReservationRow, ParticipantRow, Tables, is_active_by, Reservation, Participant, Changes,
}
use tag2now_be.Reservation.Statements.{
  to_reservation, with_participant_count, expire_finished, active_participant_count,
  active_participation, release_participants, reservation_row, save_reservation, save_participant,
  listed_before,
}

abbrev pub is_listed : ℕ → Instant → ReservationRow → Bool
is_listed seoul now row =
    ltb now (row.start_at + listing_grace)
    && ltb row.start_at (window_end seoul now)
    && is_live row.status

abbrev pub with_counts : Tables → List (ℕ × ReservationRow) → List Reservation
with_counts db rows = map (λ (id, row). with_participant_count db id row) rows

-- `list_upcoming`, at the clock's `now`.
unfoldable pub list_upcoming : ℕ → Instant → Tx Tables (List Reservation)
list_upcoming seoul now = do
  expire_finished now
  gets λ db.
      with_counts db (sort_by listed_before (select (λ _. is_listed seoul now) db.reservations))

unfoldable pub get : ℕ → Tx Tables Reservation
get reservation_id = do
  row ← reservation_row reservation_id
  gets (λ db. with_participant_count db reservation_id row)

abbrev pub new_row :
    Instant → Instant → String → String → List String → MatchType → ℕ → String → ReservationRow
new_row at start_at host_subject host_display_name host_ranks match_type capacity memo = record {
  start_at = start_at;
  host_display_name = host_display_name;
  host_subject = some host_subject;
  host_ranks = host_ranks;
  match_type = match_type;
  capacity = capacity;
  memo = memo;
  status = opened;
  created_at = at;
  updated_at = at;
  cancelled_at = none;
  ended_at = none;
}

unfoldable pub create :
    ℕ
    → Instant
    → Instant
    → String
    → String
    → List String
    → MatchType
    → ℕ
    → String
    → Tx Tables Reservation
create id at start_at host_subject host_display_name host_ranks match_type capacity memo = do
  let row = new_row at start_at host_subject host_display_name host_ranks match_type capacity memo
  save_reservation id row
  pure (to_reservation id row 0 [])

-- `setattr` of each field that is given.
abbrev pub apply_changes : Changes → ReservationRow → ReservationRow
apply_changes changes row = record row {
  start_at = get_or changes.start_at row.start_at;
  host_ranks = get_or changes.ranks row.host_ranks;
  match_type = get_or changes.match_type row.match_type;
  capacity = get_or changes.capacity row.capacity;
  memo = get_or changes.memo row.memo;
}

unfoldable pub update : ℕ → String → Instant → Changes → Tx Tables Reservation
update reservation_id host_subject now changes = do
  row ← reservation_row reservation_id
  lift (ensure_edited_by_host row.host_subject host_subject)
  participant_count ← active_participant_count reservation_id
  lift (ensure_editable row.status row.start_at participant_count now)
  let changed : ReservationRow = record (apply_changes changes row) { updated_at = now }
  save_reservation reservation_id changed
  pure (to_reservation reservation_id changed participant_count [])

-- The rows that `uq_reservation_participants_active_subject` sets against a new live seat.
abbrev conflicts_with : ParticipantRow → ParticipantRow → Bool
conflicts_with p q = elim p.subject [ none ↦ false | some s ↦ is_active_by p.reservation_id s q ]

abbrev unless_taken : Option (ℕ × ParticipantRow) → Tx Tables (Unit {0}) → Tx Tables (Unit {0})
unless_taken none write db = write db
unless_taken (some _) write db = err integrity_error

-- The insert of a seat, which the unique index may refuse.
unfoldable pub add_participant : ℕ → ParticipantRow → Tx Tables (Unit {0})
add_participant id p db =
    unless_taken (find? (conflicts_with p) db.participants) (save_participant id p) db

unfoldable pub join_seat :
    ℕ
    → Instant
    → ℕ
    → String
    → String
    → List String
    → Instant
    → Tx Tables (Reservation × Participant)
join_seat id at reservation_id subject display_name ranks now = do
  row ← reservation_row reservation_id
  participant_count ← active_participant_count reservation_id
  already ← active_participation reservation_id subject
  lift (ensure_joinable_by row.host_subject subject (is_some already))
  lift (ensure_joinable row.status row.start_at participant_count row.capacity now)
  add_participant id (record {
    reservation_id = reservation_id;
    display_name = display_name;
    subject = some subject;
    ranks = ranks;
    joined_at = at;
    cancelled_at = none;
  })
  let joined : ReservationRow = record row {
    status = status_for (participant_count + 1) row.capacity;
    updated_at = now;
  }
  save_reservation reservation_id joined
  found ← get reservation_id
  pure (
    found,
    record {
      id = id;
      reservation_id = reservation_id;
      display_name = display_name;
      ranks = ranks;
      joined_at = at;
    },
  )

-- `except IntegrityError`.
abbrev on_integrity_error : {A : Type 0} → Error → Result A → Result A
on_integrity_error e (ok a) = ok a
on_integrity_error e (err integrity_error) = err e
on_integrity_error e (err other) = err other

unfoldable pub join :
    ℕ
    → Instant
    → ℕ
    → String
    → String
    → List String
    → Instant
    → Tx Tables (Reservation × Participant)
join id at reservation_id subject display_name ranks now db =
    on_integrity_error (state_error "이미 참가한 예약입니다.")
      (join_seat id at reservation_id subject display_name ranks now db)

-- The `participant` of the check that follows it is there once the check has passed.
abbrev give_up_seat : Option (ℕ × ParticipantRow) → Instant → Tx Tables (Unit {0})
give_up_seat none now = pure tt
give_up_seat (some (id, p)) now = save_participant id (record p { cancelled_at = some now })

unfoldable pub cancel_participation : ℕ → String → Instant → Tx Tables Reservation
cancel_participation reservation_id subject now = do
  row ← reservation_row reservation_id
  participant ← active_participation reservation_id subject
  lift (ensure_participation_cancellable row.status row.start_at now (is_some participant))
  give_up_seat participant now
  participant_count ← active_participant_count reservation_id
  save_reservation reservation_id
      (record row { status = status_for participant_count row.capacity; updated_at = now })
  get reservation_id

unfoldable pub cancel : ℕ → String → Instant → Tx Tables (Unit {0})
cancel reservation_id host_subject now = do
  row ← reservation_row reservation_id
  lift (ensure_cancellable row.host_subject host_subject row.status row.start_at now)
  save_reservation reservation_id
      (record row { status = cancelled; cancelled_at = some now; updated_at = now })
  release_participants reservation_id now
