-- ===== src/Reservation/Cancelling.antt =====
-- `cancel` of reservation/adapters/postgresql.py: the host calls the session off.
use tag2now_be.Prelude.{
  ℕ, ◌<◌, String, ◌≡◌, ◌↔◌, true, some, ok, arith, lookup, insert, map_values, map_values-IsKeyed,
  same_text, Option-cases, inl, inr,
}
use tag2now_be.Time.{Instant}
use tag2now_be.Reservation.Domain.{cancelled, is_live, ensure_cancellable}
use tag2now_be.Reservation.Rows.{ReservationRow, Tables}
use tag2now_be.Reservation.Statements.{release_seat, release_participants}
use tag2now_be.Reservation.Invariant.{RowIsValid, IsConsistent, IsConsistent-put}
use tag2now_be.Reservation.Seats.{count-by-le-in}
use tag2now_be.Reservation.Bulk.{release-total, release-other}
use tag2now_be.Reservation.Repository.{cancel}

pub record IsCancellable (db : Tables) (reservation_id : ℕ) (host : String) (now : Instant)
    (row : ReservationRow) : Type 0 where
  pub found : lookup reservation_id db.reservations ≡ some row
  pub by_host : same_text row.host_subject host ≡ true
  pub still_live : is_live row.status ≡ true
  pub not_started : now < row.start_at

module _ (reservation_id : ℕ) (host : String) (now : Instant) where
  abbrev pub cancelled_row : ReservationRow → ReservationRow
  cancelled_row row = record row { status = cancelled; cancelled_at = some now; updated_at = now }

  abbrev pub cancelled_tables : Tables → ReservationRow → Tables
  cancelled_tables db row = record db {
    reservations = insert reservation_id (cancelled_row row) db.reservations;
    participants = map_values (release_seat reservation_id now) db.participants;
  }

  module _ (db : Tables) where
    pub cancel-cancelled :
        (row : ReservationRow)
        → IsCancellable db reservation_id host now row
        → cancel reservation_id host now db ≡ ok (tt, cancelled_tables db row)
    unfolding cancel ensure_cancellable release_participants
    cancel-cancelled row l = ground arith

    pub cancel-inv :
        (out : Unit {0}) (db' : Tables)
        → cancel reservation_id host now db ≡ ok (out, db')
        → (row : ReservationRow) × IsCancellable db reservation_id host now row
          × (db' ≡ cancelled_tables db row)
    unfolding cancel ensure_cancellable release_participants
    cancel-inv out db' e = elim (Option-cases (lookup reservation_id db.reservations)) [
      | inl missing ↦ absurd (ground arith)
      | inr (row, found) ↦ (
        row,
        record {
          found = found;
          by_host = ground arith;
          still_live = ground arith;
          not_started = ground arith;
        },
        ground arith,
      )
    ]

    -- Cancelling succeeds exactly for the host of a live reservation that has not started.
    pub cancel_iff :
        ((out : Unit {0}) × (db' : Tables) × (cancel reservation_id host now db ≡ ok (out, db')))
        ↔ ((row : ReservationRow) × IsCancellable db reservation_id host now row)
    cancel_iff = (
      λ (out, db', e). let (row, c, _) = cancel-inv out db' e in (row, c),
      λ (row, c). (_, _, cancel-cancelled row c),
    )

  released-RowIsValid :
      (db : Tables) (row : ReservationRow)
      → RowIsValid db.participants reservation_id row
      → RowIsValid (cancelled_tables db row).participants reservation_id (cancelled_row row)
  released-RowIsValid db row v =
      let total = release-total reservation_id now db.participants in
      record {
        capacity_pos = v.capacity_pos;
        within = omega arith;
        live = λ e. ground arith;
        retired = λ e. total;
        single = λ s.
            omega (arith, count-by-le-in reservation_id s (cancelled_tables db row).participants);
        host_free = λ s e.
            omega (arith, count-by-le-in reservation_id s (cancelled_tables db row).participants);
        conditions = v.conditions;
      }

  -- Cancelling keeps the tables consistent.
  pub cancel-IsConsistent :
      (db db' : Tables) (out : Unit {0})
      → IsConsistent db
      → cancel reservation_id host now db ≡ ok (out, db')
      → IsConsistent db'
  cancel-IsConsistent db db' out c e =
      let (row, l, written) = cancel-inv db out db' e in
      rw written (
        IsConsistent-put db reservation_id (cancelled_row row)
          (cancelled_tables db row).participants c
          (map_values-IsKeyed (release_seat reservation_id now) db.participants c.keyed)
          (λ j ne. release-other reservation_id now db.participants j ne)
          (released-RowIsValid db row (c.rows reservation_id row l.found)))
