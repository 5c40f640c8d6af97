-- ===== src/Reservation/Leaving.antt =====
-- `cancel_participation` and `cancel` of reservation/adapters/postgresql.py.
use tag2now_be.Prelude.{
  ℕ, ◌<◌, String, ◌≡◌, refl, true, some, ok, arith, Table, lookup, insert, insert-IsKeyed, count,
  find?, find-lookup, lookup-insert, Option-cases, inl, inr,
}
use tag2now_be.Time.{Instant}
use tag2now_be.Reservation.Domain.{is_live, status_for, ensure_participation_cancellable}
use tag2now_be.Reservation.Rows.{
  ReservationRow, ParticipantRow, Tables, is_active_in, is_active_by, Reservation,
}
use tag2now_be.Reservation.Statements.{with_participant_count}
use tag2now_be.Reservation.Invariant.{RowIsValid, IsConsistent, IsConsistent-put}
use tag2now_be.Reservation.Seats.{give_up-other, give_up-total, give_up-by, active_by-in}
use tag2now_be.Reservation.Repository.{get, cancel_participation}

-- The seat and the reservation that leaving is about, before the start and while it is live.
pub record IsLeavable (db : Tables) (reservation_id : ℕ) (subject : String) (now : Instant)
    (row : ReservationRow) (seat : ℕ) (p : ParticipantRow) : Type 0 where
  pub found : lookup reservation_id db.reservations ≡ some row
  pub seated : find? (is_active_by reservation_id subject) db.participants ≡ some (seat, p)
  pub still_live : is_live row.status ≡ true
  pub not_started : now < row.start_at

module _ (reservation_id : ℕ) (subject : String) (now : Instant) where
  abbrev pub left_seats : Tables → ℕ → ParticipantRow → Table ParticipantRow
  left_seats db seat p = insert seat (record p { cancelled_at = some now }) db.participants

  abbrev pub left_row : Tables → ReservationRow → ℕ → ParticipantRow → ReservationRow
  left_row db row seat p = record row {
    status = status_for (count (is_active_in reservation_id) (left_seats db seat p)) row.capacity;
    updated_at = now;
  }

  abbrev pub left_tables : Tables → ReservationRow → ℕ → ParticipantRow → Tables
  left_tables db row seat p = record db {
    reservations = insert reservation_id (left_row db row seat p) db.reservations;
    participants = left_seats db seat p;
  }

  module _ (db : Tables) where
    pub cancel_participation-left :
        (row : ReservationRow) (seat : ℕ) (p : ParticipantRow)
        → IsLeavable db reservation_id subject now row seat p
        → cancel_participation reservation_id subject now db
          ≡ ok (
            with_participant_count
                (left_tables db row seat p)
                reservation_id
                (left_row db row seat p),
            left_tables db row seat p,
          )
    unfolding cancel_participation get ensure_participation_cancellable
    cancel_participation-left row seat p l = ground (
      arith,
      lookup-insert reservation_id reservation_id (left_row db row seat p) db.reservations,
    )

    pub cancel_participation-inv :
        (out : Reservation) (db' : Tables)
        → cancel_participation reservation_id subject now db ≡ ok (out, db')
        → (row : ReservationRow) × (seat : ℕ) × (p : ParticipantRow) × IsLeavable db reservation_id
            subject now row seat p
          × (db' ≡ left_tables db row seat p)
    unfolding cancel_participation get ensure_participation_cancellable
    cancel_participation-inv out db' e =
        elim (Option-cases (lookup reservation_id db.reservations)) [
          | inl missing ↦ absurd (ground arith)
          | inr (row, found) ↦
              elim (Option-cases (find? (is_active_by reservation_id subject) db.participants)) [
                | inl none_seated ↦ absurd (ground arith)
                | inr ((seat, p), seated) ↦ (
                  row,
                  seat,
                  p,
                  record {
                    found = found;
                    seated = seated;
                    still_live = ground arith;
                    not_started = ground arith;
                  },
                  ground arith,
                )
              ]
        ]

  left-RowIsValid :
      (db : Tables) (row : ReservationRow) (seat : ℕ) (p : ParticipantRow)
      → lookup seat db.participants ≡ some p
      → is_active_in reservation_id p ≡ true
      → RowIsValid db.participants reservation_id row
      → RowIsValid (left_seats db seat p) reservation_id (left_row db row seat p)
  unfolding status_for
  left-RowIsValid db row seat p at live v =
      let total = give_up-total seat p now db.participants at reservation_id live in
      record {
        capacity_pos = v.capacity_pos;
        within = omega (arith, v.within);
        live = λ _. refl;
        retired = λ e. ground arith;
        single = λ s.
            omega
              (arith, give_up-by seat p now db.participants at reservation_id s live, v.single s);
        host_free = λ s e. omega (
          arith,
          give_up-by seat p now db.participants at reservation_id s live,
          v.host_free s e,
        );
        conditions = v.conditions;
      }

  -- Leaving keeps the tables consistent.
  pub cancel_participation-IsConsistent :
      (db db' : Tables) (out : Reservation)
      → IsConsistent db
      → cancel_participation reservation_id subject now db ≡ ok (out, db')
      → IsConsistent db'
  cancel_participation-IsConsistent db db' out c e =
      let (row, seat, p, l, written) = cancel_participation-inv db out db' e in
      let at =
        find-lookup (is_active_by reservation_id subject) db.participants seat p c.keyed l.seated in
      let live = active_by-in reservation_id subject p at.1 in
      rw written (
        IsConsistent-put db reservation_id (left_row db row seat p) (left_seats db seat p) c
          (insert-IsKeyed seat (record p { cancelled_at = some now }) db.participants c.keyed)
          (λ j ne. give_up-other seat p now db.participants at.0 reservation_id j live ne)
          (left-RowIsValid db row seat p at.0 live (c.rows reservation_id row l.found)))
