-- ===== src/Reservation/Invariant.antt =====
-- What the reservation tables keep true: the statuses, the seats and the conditions agree.
use tag2now_be.Prelude.{
  ℕ, ◌≤◌, String, ◌≡◌, ◌≢◌, ◌∙◌, true, false, none, some, ok, arith, Table, lookup, insert, count,
  IsKeyed, insert-IsKeyed, lookup-insert, same_text, inl, inr, ◌==◌, Bool-cases,
}
use tag2now_be.Reservation.Domain.{is_live, status_for, ensure_conditions_valid}
use tag2now_be.Reservation.Rows.{ReservationRow, ParticipantRow, Tables, is_active_in, is_active_by}

-- One reservation against the seats: a live one is matched exactly when its live seats fill the
-- capacity, which they never pass; one that is not live has no live seat; no account has two live
-- seats, and the host has none; the match type, the ranks and the capacity fit together.
pub record RowIsValid (seats : Table ParticipantRow) (id : ℕ) (row : ReservationRow) : Type 0 where
  pub capacity_pos : 1 ≤ row.capacity
  pub within : count (is_active_in id) seats ≤ row.capacity
  pub live :
      is_live row.status ≡ true
      → row.status ≡ status_for (count (is_active_in id) seats) row.capacity
  pub retired : is_live row.status ≡ false → count (is_active_in id) seats ≡ 0
  pub single : (s : String) → count (is_active_by id s) seats ≤ 1
  pub host_free :
      (s : String) → same_text row.host_subject s ≡ true → count (is_active_by id s) seats ≡ 0
  pub conditions : ensure_conditions_valid row.match_type row.host_ranks row.capacity ≡ ok tt

pub record IsConsistent (db : Tables) : Type 0 where
  pub rows_keyed : IsKeyed db.reservations
  pub keyed : IsKeyed db.participants
  pub rows :
      (id : ℕ) (row : ReservationRow)
      → lookup id db.reservations ≡ some row
      → RowIsValid db.participants id row
  pub no_orphans :
      (id : ℕ) → lookup id db.reservations ≡ none → count (is_active_in id) db.participants ≡ 0

-- The seats of one reservation, as far as the invariant counts them.
pub record SameSeats (id : ℕ) (t t' : Table ParticipantRow) : Type 0 where
  pub total : count (is_active_in id) t' ≡ count (is_active_in id) t
  pub each : (s : String) → count (is_active_by id s) t' ≡ count (is_active_by id s) t

pub RowIsValid-same :
    {t t' : Table ParticipantRow} {id : ℕ} {row : ReservationRow}
    → SameSeats id t t'
    → RowIsValid t id row
    → RowIsValid t' id row
RowIsValid-same same v = record {
  capacity_pos = v.capacity_pos;
  within = rw same.total v.within;
  live = rw same.total v.live;
  retired = rw same.total v.retired;
  single = λ s. rw (same.each s) (v.single s);
  host_free = λ s. rw (same.each s) (v.host_free s);
  conditions = v.conditions;
}

-- Writing one reservation, with seats that count the same for every other one.
pub IsConsistent-put :
    (db : Tables) (id : ℕ) (row : ReservationRow) (seats : Table ParticipantRow)
    → IsConsistent db
    → IsKeyed seats
    → ((j : ℕ) → j ≢ id → SameSeats j db.participants seats)
    → RowIsValid seats id row
    → IsConsistent
        (record db { reservations = insert id row db.reservations; participants = seats })
IsConsistent-put db id row seats c keyed others v = record {
  rows_keyed = insert-IsKeyed id row db.reservations c.rows_keyed;
  keyed = keyed;
  rows = λ j r e. elim (Bool-cases (id == j)) [
    | inl same ↦
        let at : id ≡ j = ground arith in
        let written : row ≡ r = ground (arith, lookup-insert id j row db.reservations) in
        rw (← at, ← written) v
    | inr other ↦
        RowIsValid-same (others j (ground arith))
          (c.rows j r (ground (arith, lookup-insert id j row db.reservations)))
  ];
  no_orphans = λ j e. elim (Bool-cases (id == j)) [
    | inl same ↦ absurd (ground (arith, lookup-insert id j row db.reservations))
    | inr other ↦
        (others j (ground arith)).total
        ∙ c.no_orphans j (ground (arith, lookup-insert id j row db.reservations))
  ];
}
