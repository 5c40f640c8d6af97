-- ===== src/Reservation/Editing.antt =====
-- `update` and `create` of reservation/adapters/postgresql.py.
use tag2now_be.Prelude.{
  ℕ, ◌<◌, ◌≤◌, String, ◌≡◌, refl, ◌↔◌, true, none, some, List, [], ok, arith, Table, lookup, insert,
  count, same_text, Option-cases, inl, inr,
}
use tag2now_be.Time.{Instant}
use tag2now_be.Reservation.Domain.{
  MatchType, is_live, status_for, ensure_edited_by_host, ensure_editable, ensure_conditions_valid,
}
use tag2now_be.Reservation.Rows.{
  ReservationRow, ParticipantRow, Tables, is_active_in, Reservation, Changes,
}
use tag2now_be.Reservation.Statements.{to_reservation}
use tag2now_be.Reservation.Invariant.{RowIsValid, IsConsistent, IsConsistent-put}
use tag2now_be.Reservation.Seats.{count-by-le-in}
use tag2now_be.Reservation.Repository.{apply_changes, update, new_row, create}

pub record IsEditable (db : Tables) (reservation_id : ℕ) (host : String) (now : Instant)
    (row : ReservationRow) : Type 0 where
  pub found : lookup reservation_id db.reservations ≡ some row
  pub by_host : same_text row.host_subject host ≡ true
  pub still_live : is_live row.status ≡ true
  pub not_started : now < row.start_at
  pub empty : count (is_active_in reservation_id) db.participants ≡ 0

module _ (reservation_id : ℕ) (host : String) (now : Instant) (changes : Changes) where
  abbrev pub edited_row : ReservationRow → ReservationRow
  edited_row row = record (apply_changes changes row) { updated_at = now }

  abbrev pub edited_tables : Tables → ReservationRow → Tables
  edited_tables db row = record db {
    reservations = insert reservation_id (edited_row row) db.reservations;
  }

  module _ (db : Tables) where
    pub update-edited :
        (row : ReservationRow)
        → IsEditable db reservation_id host now row
        → update reservation_id host now changes db
          ≡ ok (to_reservation reservation_id (edited_row row) 0 [], edited_tables db row)
    unfolding update ensure_edited_by_host ensure_editable
    update-edited row l = ground arith

    pub update-inv :
        (out : Reservation) (db' : Tables)
        → update reservation_id host now changes db ≡ ok (out, db')
        → (row : ReservationRow) × IsEditable db reservation_id host now row
          × (db' ≡ edited_tables db row)
    unfolding update ensure_edited_by_host ensure_editable
    update-inv out db' e = elim (Option-cases (lookup reservation_id db.reservations)) [
      | inl missing ↦ absurd (ground arith)
      | inr (row, found) ↦ (
        row,
        record {
          found = found;
          by_host = ground arith;
          still_live = ground arith;
          not_started = ground arith;
          empty = ground arith;
        },
        ground arith,
      )
    ]

    -- An edit succeeds exactly for the host of a live reservation that has not started and that
    -- nobody has joined.
    pub update_iff :
        ((out : Reservation) × (db' : Tables) × (update reservation_id host now changes db
            ≡ ok (out, db')))
        ↔ ((row : ReservationRow) × IsEditable db reservation_id host now row)
    update_iff = (
      λ (out, db', e). let (row, l, _) = update-inv out db' e in (row, l),
      λ (row, l). (_, _, update-edited row l),
    )

  edited-RowIsValid :
      (db : Tables) (row : ReservationRow)
      → RowIsValid db.participants reservation_id row
      → count (is_active_in reservation_id) db.participants ≡ 0
      → 1 ≤ (edited_row row).capacity
      → ensure_conditions_valid
          (edited_row row).match_type
          (edited_row row).host_ranks
          (edited_row row).capacity
        ≡ ok tt
      → RowIsValid db.participants reservation_id (edited_row row)
  unfolding status_for
  edited-RowIsValid db row v empty capacity conditions = record {
    capacity_pos = capacity;
    within = omega arith;
    live = λ e. ground (arith, v.live e);
    retired = v.retired;
    single = v.single;
    host_free = v.host_free;
    conditions = conditions;
  }

  -- An edit whose outcome satisfies the rules on conditions keeps the tables consistent.
  pub update-IsConsistent :
      (db db' : Tables) (out : Reservation)
      → IsConsistent db
      → ((row : ReservationRow)
          → lookup reservation_id db.reservations ≡ some row
          → (1 ≤ (edited_row row).capacity)
            × (ensure_conditions_valid
                  (edited_row row).match_type
                  (edited_row row).host_ranks
                  (edited_row row).capacity
                ≡ ok tt))
      → update reservation_id host now changes db ≡ ok (out, db')
      → IsConsistent db'
  update-IsConsistent db db' out c fits e =
      let (row, l, written) = update-inv db out db' e in
      let (capacity, conditions) = fits row l.found in
      rw written (
        IsConsistent-put db reservation_id (edited_row row) db.participants c c.keyed
          (λ j ne. record { total = refl; each = λ s. refl })
          (edited-RowIsValid db row (c.rows reservation_id row l.found) l.empty capacity
            conditions))

module _ (id : ℕ) (at start_at : Instant) (host name : String) (ranks : List String) (m : MatchType)
    (capacity : ℕ) (memo : String) where
  abbrev pub created_row : ReservationRow
  created_row = new_row at start_at host name ranks m capacity memo

  -- The new reservation, and the tables with it.
  pub create-created :
      (db : Tables)
      → create id at start_at host name ranks m capacity memo db
        ≡ ok (
          to_reservation id created_row 0 [],
          record db { reservations = insert id created_row db.reservations },
        )
  unfolding create
  create-created db = refl

  created-RowIsValid :
      (seats : Table ParticipantRow)
      → count (is_active_in id) seats ≡ 0
      → 1 ≤ capacity
      → ensure_conditions_valid m ranks capacity ≡ ok tt
      → RowIsValid seats id created_row
  unfolding status_for
  created-RowIsValid seats empty pos fits = record {
    capacity_pos = pos;
    within = omega arith;
    live = λ e. ground arith;
    retired = λ e. ground arith;
    single = λ s. omega (arith, count-by-le-in id s seats);
    host_free = λ s e. omega (arith, count-by-le-in id s seats);
    conditions = fits;
  }

  -- A new reservation under a key that no reservation has yet, with a capacity of at least 1 and
  -- conditions that fit, keeps the tables consistent.
  pub create-IsConsistent :
      (db db' : Tables) (out : Reservation)
      → IsConsistent db
      → lookup id db.reservations ≡ none
      → 1 ≤ capacity
      → ensure_conditions_valid m ranks capacity ≡ ok tt
      → create id at start_at host name ranks m capacity memo db ≡ ok (out, db')
      → IsConsistent db'
  create-IsConsistent db db' out c fresh pos fits e =
      let written : record db { reservations = insert id created_row db.reservations } ≡ db' =
        ground (arith, create-created db) in
      rw (← written) (
        IsConsistent-put db id created_row db.participants c c.keyed
          (λ j ne. record { total = refl; each = λ s. refl })
          (created-RowIsValid db.participants (c.no_orphans id fresh) pos fits))
