-- ===== src/Reservation/Seats.antt =====
-- How each write of the participants table changes the counts of live seats.
use tag2now_be.Prelude.{
  ℕ, ◌+◌, ◌≤◌, String, ◌≡◌, ◌≢◌, true, none, some, arith, Table, lookup, insert, count,
  count-insert, count-insert_new, count-le, to_ℕ, same_text,
}
use tag2now_be.Time.{Instant}
use tag2now_be.Reservation.Rows.{ParticipantRow, is_active_in, is_active_by}
use tag2now_be.Reservation.Invariant.{SameSeats}

pub active_by-in :
    (id : ℕ) (s : String) (p : ParticipantRow)
    → is_active_by id s p ≡ true
    → is_active_in id p ≡ true
unfolding is_active_by
active_by-in id s p e = ground arith

-- An account's live seats are among the live seats.
pub count-by-le-in :
    (id : ℕ) (s : String) (t : Table ParticipantRow)
    → count (is_active_by id s) t ≤ count (is_active_in id) t
count-by-le-in id s t = count-le (is_active_by id s) (is_active_in id) t (active_by-in id s)

module _ (k : ℕ) (p : ParticipantRow) (t : Table ParticipantRow) (fresh : lookup k t ≡ none) where
  pub add_seat-other : (j : ℕ) → j ≢ p.reservation_id → SameSeats j t (insert k p t)
  unfolding is_active_by
  add_seat-other j ne = record {
    total = ground (arith, count-insert_new (is_active_in j) k p t);
    each = λ s. ground (arith, count-insert_new (is_active_by j s) k p t);
  }

  pub add_seat-total :
      p.cancelled_at ≡ none
      → count (is_active_in p.reservation_id) (insert k p t)
        ≡ count (is_active_in p.reservation_id) t + 1
  unfolding is_active_in
  add_seat-total live = ground (arith, count-insert_new (is_active_in p.reservation_id) k p t)

  pub add_seat-by :
      (s : String)
      → p.cancelled_at ≡ none
      → count (is_active_by p.reservation_id s) (insert k p t)
        ≡ count (is_active_by p.reservation_id s) t + to_ℕ (same_text p.subject s)
  unfolding is_active_by
  add_seat-by s live = ground (arith, count-insert_new (is_active_by p.reservation_id s) k p t)

module _ (k : ℕ) (p : ParticipantRow) (now : Instant) (t : Table ParticipantRow)
    (found : lookup k t ≡ some p) where
  abbrev given_up : Table ParticipantRow
  given_up = insert k (record p { cancelled_at = some now }) t

  pub give_up-other : (id : ℕ) (j : ℕ) → is_active_in id p ≡ true → j ≢ id → SameSeats j t given_up
  unfolding is_active_by
  give_up-other id j live ne = record {
    total =
        ground (arith, count-insert (is_active_in j) k p (record p { cancelled_at = some now }) t);
    each = λ s.
        ground
          (arith, count-insert (is_active_by j s) k p (record p { cancelled_at = some now }) t);
  }

  pub give_up-total :
      (id : ℕ)
      → is_active_in id p ≡ true
      → count (is_active_in id) given_up + 1 ≡ count (is_active_in id) t
  unfolding is_active_in
  give_up-total id live =
      ground (arith, count-insert (is_active_in id) k p (record p { cancelled_at = some now }) t)

  pub give_up-by :
      (id : ℕ) (s : String)
      → is_active_in id p ≡ true
      → count (is_active_by id s) given_up + to_ℕ (same_text p.subject s)
        ≡ count (is_active_by id s) t
  unfolding is_active_by
  give_up-by id s live =
      ground (arith, count-insert (is_active_by id s) k p (record p { cancelled_at = some now }) t)
