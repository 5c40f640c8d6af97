-- ===== src/Reservation/Joining.antt =====
-- `join` of reservation/adapters/postgresql.py: exactly when it succeeds, and what it writes.
use tag2now_be.Prelude.{
  ℕ, ◌+◌, ◌<◌, String, ◌≡◌, refl, ◌↔◌, false, none, some, List, ok, arith, lookup, insert,
  insert-IsKeyed, count, find?, count-find_none, count-find_some, lookup-insert, same_text, eq_iff,
  Option-cases, inl, inr,
}
use tag2now_be.Time.{Instant}
use tag2now_be.Reservation.Domain.{opened, status_for, ensure_joinable_by, ensure_joinable}
use tag2now_be.Reservation.Rows.{
  ReservationRow, ParticipantRow, Tables, is_active_in, is_active_by, Reservation, Participant,
}
use tag2now_be.Reservation.Statements.{with_participant_count}
use tag2now_be.Reservation.Invariant.{RowIsValid, IsConsistent, IsConsistent-put}
use tag2now_be.Reservation.Seats.{add_seat-other, add_seat-total, add_seat-by}
use tag2now_be.Reservation.Repository.{get, add_participant, join_seat, join}

pub record IsJoinable (db : Tables) (reservation_id : ℕ) (subject : String) (now : Instant)
    (row : ReservationRow) : Type 0 where
  pub found : lookup reservation_id db.reservations ≡ some row
  pub not_host : same_text row.host_subject subject ≡ false
  pub not_joined : count (is_active_by reservation_id subject) db.participants ≡ 0
  pub still_open : row.status ≡ opened
  pub not_started : now < row.start_at
  pub has_room : count (is_active_in reservation_id) db.participants < row.capacity

module _ (id : ℕ) (at : Instant) (reservation_id : ℕ) (subject display_name : String)
    (ranks : List String) (now : Instant) where
  abbrev pub new_seat : ParticipantRow
  new_seat = record {
    reservation_id = reservation_id;
    display_name = display_name;
    subject = some subject;
    ranks = ranks;
    joined_at = at;
    cancelled_at = none;
  }

  abbrev pub new_participant : Participant
  new_participant = record {
    id = id;
    reservation_id = reservation_id;
    display_name = display_name;
    ranks = ranks;
    joined_at = at;
  }

  abbrev pub joined_row : Tables → ReservationRow → ReservationRow
  joined_row db row = record row {
    status = status_for (count (is_active_in reservation_id) db.participants + 1) row.capacity;
    updated_at = now;
  }

  abbrev pub joined_tables : Tables → ReservationRow → Tables
  joined_tables db row = record db {
    reservations = insert reservation_id (joined_row db row) db.reservations;
    participants = insert id new_seat db.participants;
  }

  pub find-not_joined :
      (db : Tables)
      → count (is_active_by reservation_id subject) db.participants ≡ 0
      → find? (is_active_by reservation_id subject) db.participants ≡ none
  find-not_joined db e =
      elim (Option-cases (find? (is_active_by reservation_id subject) db.participants)) [
        | inl free ↦ free
        | inr ((k, p), taken) ↦ absurd (
            omega (
              arith,
              count-find_some (is_active_by reservation_id subject) db.participants k p taken,
            ))
      ]

  module _ (db : Tables) where
    pub join_seat-joined :
        (row : ReservationRow)
        → IsJoinable db reservation_id subject now row
        → join_seat id at reservation_id subject display_name ranks now db
          ≡ ok (
            (
              with_participant_count (joined_tables db row) reservation_id (joined_row db row),
              new_participant,
            ),
            joined_tables db row,
          )
    unfolding join_seat add_participant get ensure_joinable_by ensure_joinable
    join_seat-joined row j = ground (
      arith,
      find-not_joined db j.not_joined,
      lookup-insert reservation_id reservation_id (joined_row db row) db.reservations,
    )

    pub join_seat-inv :
        (out : Reservation × Participant) (db' : Tables)
        → join_seat id at reservation_id subject display_name ranks now db ≡ ok (out, db')
        → (row : ReservationRow) × IsJoinable db reservation_id subject now row
          × (db' ≡ joined_tables db row)
    unfolding join_seat add_participant get ensure_joinable_by ensure_joinable
    join_seat-inv out db' e = elim (Option-cases (lookup reservation_id db.reservations)) [
      | inl missing ↦ absurd (ground arith)
      | inr (row, found) ↦ (
        row,
        record {
          found = found;
          not_host = ground arith;
          not_joined =
              count-find_none (is_active_by reservation_id subject) db.participants (ground arith);
          still_open = ground arith;
          not_started = ground arith;
          has_room = ground arith;
        },
        ground arith,
      )
    ]

    pub join-joined :
        (row : ReservationRow)
        → IsJoinable db reservation_id subject now row
        → join id at reservation_id subject display_name ranks now db
          ≡ ok (
            (
              with_participant_count (joined_tables db row) reservation_id (joined_row db row),
              new_participant,
            ),
            joined_tables db row,
          )
    unfolding join
    join-joined row j = rw (join_seat-joined row j)

    pub join-inv :
        (out : Reservation × Participant) (db' : Tables)
        → join id at reservation_id subject display_name ranks now db ≡ ok (out, db')
        → (row : ReservationRow) × IsJoinable db reservation_id subject now row
          × (db' ≡ joined_tables db row)
    unfolding join
    join-inv out db' e = join_seat-inv out db' (ground arith)

    -- Joining succeeds exactly when the reservation is there, open and not started, the account is
    -- neither its host nor seated in it, and fewer live seats than the capacity are taken.
    pub join_iff :
        ((out : Reservation × Participant) × (db' : Tables) × (join id at reservation_id subject
              display_name ranks now db
            ≡ ok (out, db')))
        ↔ ((row : ReservationRow) × IsJoinable db reservation_id subject now row)
    join_iff = (
      λ (out, db', e). let (row, j, _) = join-inv out db' e in (row, j),
      λ (row, j). (_, _, join-joined row j),
    )

  joined-RowIsValid :
      (db : Tables) (row : ReservationRow)
      → lookup id db.participants ≡ none
      → RowIsValid db.participants reservation_id row
      → IsJoinable db reservation_id subject now row
      → RowIsValid (joined_tables db row).participants reservation_id (joined_row db row)
  unfolding status_for
  joined-RowIsValid db row fresh v j =
      let total = add_seat-total id new_seat db.participants fresh refl in
      record {
        capacity_pos = v.capacity_pos;
        within = ground arith;
        live = λ _. ground arith;
        retired = λ e. ground arith;
        single = λ s. ground (
          arith,
          eq_iff subject s,
          add_seat-by id new_seat db.participants fresh s refl,
          v.single s,
        );
        host_free = λ s e. ground (
          arith,
          eq_iff subject s,
          add_seat-by id new_seat db.participants fresh s refl,
          v.host_free s e,
        );
        conditions = v.conditions;
      }

  -- With a key that no seat has yet, joining keeps the tables consistent.
  pub join-IsConsistent :
      (db db' : Tables) (out : Reservation × Participant)
      → IsConsistent db
      → lookup id db.participants ≡ none
      → join id at reservation_id subject display_name ranks now db ≡ ok (out, db')
      → IsConsistent db'
  join-IsConsistent db db' out c fresh e =
      let (row, j, written) = join-inv db out db' e in
      rw written (
        IsConsistent-put db reservation_id (joined_row db row) (insert id new_seat db.participants)
          c (insert-IsKeyed id new_seat db.participants c.keyed)
          (λ k ne. add_seat-other id new_seat db.participants fresh k ne)
          (joined-RowIsValid db row fresh (c.rows reservation_id row j.found) j))
