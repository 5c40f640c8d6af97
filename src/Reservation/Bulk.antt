-- ===== src/Reservation/Bulk.antt =====
-- How the two bulk updates, release and expiry, change the counts of live seats.
use tag2now_be.Prelude.{
  ℕ, String, ◌≡◌, ◌≢◌, true, false, arith, Table, count, map_values, count-map_values_same,
  count-map_values_none,
}
use tag2now_be.Time.{Instant}
use tag2now_be.Reservation.Rows.{ReservationRow, ParticipantRow, is_active_in, is_active_by}
use tag2now_be.Reservation.Statements.{release_seat, expire_seat, is_finished_id}
use tag2now_be.Reservation.Invariant.{SameSeats}

module _ (f : ℕ → ParticipantRow → ParticipantRow) (t : Table ParticipantRow) where
  -- An update that leaves the reservation's seats live or not, and theirs, as they are.
  same_seats :
      (id : ℕ)
      → ((k : ℕ) (p : ParticipantRow) → is_active_in id (f k p) ≡ is_active_in id p)
      → ((k : ℕ) (p : ParticipantRow) (s : String)
          → is_active_by id s (f k p) ≡ is_active_by id s p)
      → SameSeats id t (map_values f t)
  same_seats id live mine = record {
    total = count-map_values_same (is_active_in id) f t live;
    each = λ s. count-map_values_same (is_active_by id s) f t (λ k p. mine k p s);
  }

module _ (id : ℕ) (now : Instant) (t : Table ParticipantRow) where
  released_in : (k : ℕ) (p : ParticipantRow) → is_active_in id (release_seat id now k p) ≡ false
  unfolding release_seat is_active_in
  released_in k p = ground arith

  pub release-total : count (is_active_in id) (map_values (release_seat id now) t) ≡ 0
  release-total = count-map_values_none (is_active_in id) (release_seat id now) t released_in

  pub release-other : (j : ℕ) → j ≢ id → SameSeats j t (map_values (release_seat id now) t)
  unfolding release_seat is_active_by
  release-other j ne =
      same_seats (release_seat id now) t j (λ k p. ground arith) (λ k p s. ground arith)

module _ (now : Instant) (rows : Table ReservationRow) (t : Table ParticipantRow) (id : ℕ) where
  expired_in :
      is_finished_id now rows id ≡ true
      → (k : ℕ) (p : ParticipantRow) → is_active_in id (expire_seat now rows k p) ≡ false
  unfolding expire_seat is_active_in
  expired_in gone k p = ground arith

  pub expire-total :
      is_finished_id now rows id ≡ true
      → count (is_active_in id) (map_values (expire_seat now rows) t) ≡ 0
  expire-total gone =
      count-map_values_none (is_active_in id) (expire_seat now rows) t (expired_in gone)

  pub expire-other :
      is_finished_id now rows id ≡ false → SameSeats id t (map_values (expire_seat now rows) t)
  unfolding expire_seat is_active_by
  expire-other stays =
      same_seats (expire_seat now rows) t id (λ k p. ground arith) (λ k p s. ground arith)
