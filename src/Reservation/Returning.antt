-- ===== src/Reservation/Returning.antt =====
-- Joining and then leaving, in reservation/adapters/postgresql.py.
use tag2now_be.Prelude.{
  ℕ, String, ◌≡◌, refl, true, none, some, List, ok, arith, lookup, count, find-insert_new,
  lookup-insert, eq_iff,
}
use tag2now_be.Time.{Instant}
use tag2now_be.Reservation.Domain.{opened, status_for}
use tag2now_be.Reservation.Rows.{
  ReservationRow, ParticipantRow, Tables, is_active_in, is_active_by, Reservation, Participant,
}
use tag2now_be.Reservation.Seats.{add_seat-total, give_up-total}
use tag2now_be.Reservation.Repository.{cancel_participation, join}
use tag2now_be.Reservation.Joining.{
  join-inv, IsJoinable, new_seat, joined_row, joined_tables, find-not_joined,
}
use tag2now_be.Reservation.Leaving.{
  IsLeavable, left_seats, left_row, left_tables, cancel_participation-left,
}
use tag2now_be.Reservation.Statements.{with_participant_count}

module _ (id : ℕ) (at : Instant) (reservation_id : ℕ) (subject name : String) (ranks : List String)
    (now : Instant) (db : Tables) (row : ReservationRow) (fresh : lookup id db.participants ≡ none)
    (j : IsJoinable db reservation_id subject now row) where
  abbrev joined : Tables
  joined = joined_tables id at reservation_id subject name ranks now db row

  abbrev seat : ParticipantRow
  seat = new_seat id at reservation_id subject name ranks now

  abbrev full_row : ReservationRow
  full_row = joined_row id at reservation_id subject name ranks now db row

  seat-active : is_active_by reservation_id subject seat ≡ true
  unfolding is_active_by
  seat-active = ground (arith, eq_iff subject subject)

  leavable : IsLeavable joined reservation_id subject now full_row id seat
  unfolding status_for
  leavable = record {
    found = ground (arith, lookup-insert reservation_id reservation_id full_row db.reservations);
    seated =
        find-insert_new (is_active_by reservation_id subject) id seat db.participants
          (find-not_joined id at reservation_id subject name ranks now db j.not_joined) fresh
          seat-active;
    still_live = ground arith;
    not_started = j.not_started;
  }

  restored_count :
      count (is_active_in reservation_id) (left_seats reservation_id subject now joined id seat)
      ≡ count (is_active_in reservation_id) db.participants
  unfolding is_active_in
  restored_count =
      let added = add_seat-total id seat db.participants fresh refl in
      let found : lookup id joined.participants ≡ some seat =
        ground (arith, lookup-insert id id seat db.participants) in
      omega
        (arith, give_up-total id seat now joined.participants found reservation_id (ground arith))

  restored_status :
      status_for
        (count (is_active_in reservation_id) (left_seats reservation_id subject now joined id seat))
        row.capacity
      ≡ opened
  unfolding status_for
  restored_status = ground (arith, restored_count)

-- An account that has just joined, under a key that no seat had, can leave again at once: the
-- reservation is open as before, with as many live seats as before.
pub leave-join :
    (id : ℕ) (at : Instant) (reservation_id : ℕ) (subject name : String) (ranks : List String)
    (now : Instant) (db db' : Tables) (joined_out : Reservation × Participant)
    → lookup id db.participants ≡ none
    → join id at reservation_id subject name ranks now db ≡ ok (joined_out, db')
    → (out : Reservation) × (db'' : Tables) × (cancel_participation reservation_id subject now db'
        ≡ ok (out, db''))
      × (count (is_active_in reservation_id) db''.participants
          ≡ count (is_active_in reservation_id) db.participants)
      × (out.status ≡ opened)
unfolding with_participant_count
leave-join id at reservation_id subject name ranks now db db' joined_out fresh e =
    let (row, j, written) =
      join-inv id at reservation_id subject name ranks now db joined_out db' e in
    let back = leavable id at reservation_id subject name ranks now db row fresh j in
    let t = joined_tables id at reservation_id subject name ranks now db row in
    let full = joined_row id at reservation_id subject name ranks now db row in
    let p = new_seat id at reservation_id subject name ranks now in
    (
      with_participant_count (left_tables reservation_id subject now t full id p) reservation_id
          (left_row reservation_id subject now t full id p),
      left_tables reservation_id subject now t full id p,
      rw written (cancel_participation-left reservation_id subject now t full id p back),
      restored_count id at reservation_id subject name ranks now db row fresh j,
      restored_status id at reservation_id subject name ranks now db row fresh j,
    )
