-- ===== src/Reservation/Closing.antt =====
-- A cancelled reservation of reservation/adapters/postgresql.py stays so: no request on it that
-- changes seats or conditions succeeds any more.
use tag2now_be.Prelude.{
  ℕ, String, ◌≡◌, refl, true, some, List, is_err, ok, arith, lookup, count, lookup-insert,
}
use tag2now_be.Time.{Instant}
use tag2now_be.Reservation.Domain.{
  cancelled, ensure_joinable_by, ensure_joinable, ensure_participation_cancellable,
  ensure_cancellable, ensure_edited_by_host, ensure_editable, ensure_commentable,
}
use tag2now_be.Reservation.Rows.{ReservationRow, Tables, is_active_in, Changes}
use tag2now_be.Reservation.Bulk.{release-total}
use tag2now_be.Reservation.Repository.{join_seat, join, cancel_participation, cancel, update}
use tag2now_be.Reservation.Comments.{add_comment}
use tag2now_be.Reservation.Cancelling.{cancelled_row, cancel-inv}

-- The reservation's row says that it is cancelled.
abbrev pub IsCancelled : Tables → ℕ → Type 0
IsCancelled db reservation_id =
    (row : ReservationRow) × (lookup reservation_id db.reservations ≡ some row)
    × (row.status ≡ cancelled)

-- After a cancellation the reservation is cancelled and has no live seat.
pub cancel-IsCancelled :
    (reservation_id : ℕ) (host : String) (now : Instant) (db db' : Tables) (out : Unit {0})
    → cancel reservation_id host now db ≡ ok (out, db')
    → IsCancelled db' reservation_id × (count (is_active_in reservation_id) db'.participants ≡ 0)
cancel-IsCancelled reservation_id host now db db' out e =
    let (row, c, written) = cancel-inv reservation_id host now db out db' e in
    rw written (
      (
        cancelled_row reservation_id host now row,
        ground (
          arith,
          lookup-insert reservation_id reservation_id (cancelled_row reservation_id host now row)
              db.reservations,
        ),
        refl,
      ),
      release-total reservation_id now db.participants,
    )

module _ (db : Tables) (reservation_id : ℕ) (row : ReservationRow)
    (found : lookup reservation_id db.reservations ≡ some row)
    (status : row.status ≡ cancelled) where
  join-refused :
      (id : ℕ) (at : Instant) (subject name : String) (ranks : List String) (now : Instant)
      → is_err (join id at reservation_id subject name ranks now db) ≡ true
  unfolding join join_seat ensure_joinable_by ensure_joinable
  join-refused id at subject name ranks now = ground arith

  leave-refused :
      (subject : String) (now : Instant)
      → is_err (cancel_participation reservation_id subject now db) ≡ true
  unfolding cancel_participation ensure_participation_cancellable
  leave-refused subject now = ground arith

  update-refused :
      (subject : String) (now : Instant) (changes : Changes)
      → is_err (update reservation_id subject now changes db) ≡ true
  unfolding update ensure_edited_by_host ensure_editable
  update-refused subject now changes = ground arith

  cancel-refused :
      (subject : String) (now : Instant) → is_err (cancel reservation_id subject now db) ≡ true
  unfolding cancel ensure_cancellable
  cancel-refused subject now = ground arith

  comment-refused :
      (id : ℕ) (at : Instant) (subject name body : String)
      → is_err (add_comment id at reservation_id subject name body db) ≡ true
  unfolding add_comment ensure_commentable
  comment-refused id at subject name body = ground arith

module _ (db : Tables) (reservation_id : ℕ) (gone : IsCancelled db reservation_id) where
  -- Whoever asks and whenever: joining, leaving, editing, cancelling again and commenting raise.
  pub cancelled_refuses :
      (id : ℕ) (at : Instant) (subject name body : String) (ranks : List String) (now : Instant)
      (changes : Changes)
      → (is_err (join id at reservation_id subject name ranks now db) ≡ true)
        × (is_err (cancel_participation reservation_id subject now db) ≡ true)
        × (is_err (update reservation_id subject now changes db) ≡ true)
        × (is_err (cancel reservation_id subject now db) ≡ true)
        × (is_err (add_comment id at reservation_id subject name body db) ≡ true)
  cancelled_refuses id at subject name body ranks now changes =
      let (row, found, status) = gone in
      (
        join-refused db reservation_id row found status id at subject name ranks now,
        leave-refused db reservation_id row found status subject now,
        update-refused db reservation_id row found status subject now changes,
        cancel-refused db reservation_id row found status subject now,
        comment-refused db reservation_id row found status id at subject name body,
      )
