-- ===== src/Reservation/Listing.antt =====
-- `list_upcoming` of reservation/adapters/postgresql.py: the expiry that it starts with, and what
-- it lists.
use tag2now_be.Prelude.{
  ℕ, Bool, not, ap, to_ℕ, Option, ◌+◌, ◌<◌, ◌≡◌, ◌∙◌, refl, true, false, none, some, List, ok,
  arith, lookup, map_values, map_values-IsKeyed, lookup-map_values, select, sort_by, All, All-map,
  All-mono, All-select, passing, count_of, count_of-map, count_of-sort_by, count_of-select,
  IsSortedBy, IsSortedBy-map, IsSortedBy-mono, sort_by-IsSortedBy, IsKeyed, ◌==◌, ◌||◌, All-sort_by,
  ◌&&◌, ltb, Option-cases, Bool-cases, inl, inr,
}
use mathlib.Core.Option
use tag2now_be.Time.{Instant}
use tag2now_be.Reservation.Domain.{
  opened, matched, cancelled, ended, is_live, is_open, listing_grace, window_end,
}
use tag2now_be.Reservation.Rows.{ReservationRow, Tables, Reservation}
use tag2now_be.Reservation.Statements.{
  finished, expire_seat, expire_row, expire_finished, listed_before, with_participant_count,
}
use tag2now_be.Reservation.Invariant.{RowIsValid, RowIsValid-same, IsConsistent}
use tag2now_be.Reservation.Seats.{count-by-le-in}
use tag2now_be.Reservation.Bulk.{expire-total, expire-other}
use tag2now_be.Reservation.Repository.{is_listed, with_counts, list_upcoming}

module _ (now : Instant) (db : Tables) where
  abbrev pub expired_tables : Tables
  expired_tables = record db {
    reservations = map_values (expire_row now) db.reservations;
    participants = map_values (expire_seat now db.reservations) db.participants;
  }

  expired-RowIsValid :
      (id : ℕ) (row : ReservationRow)
      → lookup id db.reservations ≡ some row
      → RowIsValid db.participants id row
      → RowIsValid expired_tables.participants id (expire_row now id row)
  unfolding expire_row
  expired-RowIsValid id row found v = elim (Bool-cases (finished now row)) [
    | inl over ↦
        let total = expire-total now db.reservations db.participants id (ground arith) in
        rw over (record {
          capacity_pos = v.capacity_pos;
          within = omega arith;
          live = λ e. ground arith;
          retired = λ e. total;
          single = λ s. omega (arith, count-by-le-in id s expired_tables.participants);
          host_free = λ s e. omega (arith, count-by-le-in id s expired_tables.participants);
          conditions = v.conditions;
        })
    | inr still ↦
        rw still
          (RowIsValid-same (expire-other now db.reservations db.participants id (ground arith)) v)
  ]

  -- Retiring the finished reservations keeps the tables consistent.
  pub expire-IsConsistent : IsConsistent db → IsConsistent expired_tables
  expire-IsConsistent c = record {
    rows_keyed = map_values-IsKeyed (expire_row now) db.reservations c.rows_keyed;
    keyed = map_values-IsKeyed (expire_seat now db.reservations) db.participants c.keyed;
    rows = λ id r e. elim (Option-cases (lookup id db.reservations)) [
      | inl missing ↦ absurd (ground (arith, lookup-map_values (expire_row now) id db.reservations))
      | inr (row, found) ↦
          let at : expire_row now id row ≡ r =
            ground (arith, lookup-map_values (expire_row now) id db.reservations) in
          rw (← at) (expired-RowIsValid id row found (c.rows id row found))
    ];
    no_orphans = λ id e.
        let missing : lookup id db.reservations ≡ none =
          ground (arith, lookup-map_values (expire_row now) id db.reservations) in
        rw (expire-other now db.reservations db.participants id (ground arith)).total
          (c.no_orphans id missing);
  }

  -- No live reservation of the retired tables is an hour or more past its start.
  pub expired_not_overdue :
      (id : ℕ) (row : ReservationRow)
      → lookup id expired_tables.reservations ≡ some row
      → is_live row.status ≡ true
      → now < row.start_at + listing_grace
  unfolding expire_row finished
  expired_not_overdue id row e live =
      ground (arith, lookup-map_values (expire_row now) id db.reservations)

listed_before_asym :
    (x y : ℕ × ReservationRow) → listed_before y x ≡ true → listed_before x y ≡ false
listed_before_asym x y h = ground arith

listed_before_trans :
    (x y z : ℕ × ReservationRow)
    → listed_before y x ≡ false
    → listed_before z y ≡ false
    → listed_before z x ≡ false
listed_before_trans x y z h k = ground arith

-- What a caller expects to see: a reservation that is open or matched, starts less than the grace ago
-- or later, and before the window's end.
abbrev pub is_upcoming : ℕ → Instant → ReservationRow → Bool
is_upcoming seoul now row =
    elim row.status [ opened ↦ true | matched ↦ true | cancelled ↦ false | ended ↦ false ]
    && ltb now (row.start_at + listing_grace)
    && ltb row.start_at (window_end seoul now)

-- By the start; among equal starts an open one comes before a matched one.
abbrev pub comes_before : Reservation → Reservation → Bool
comes_before x y =
    ltb x.start_at y.start_at
    || (x.start_at == y.start_at && (is_open x.status && not (is_open y.status)))

-- A row is listed after the retiring exactly when it was to be seen before it.
is_listed-expire_row :
    (seoul : ℕ) (now : Instant) (id : ℕ) (row : ReservationRow)
    → is_listed seoul now (expire_row now id row) ≡ is_upcoming seoul now row
unfolding expire_row finished
is_listed-expire_row seoul now id row = ground arith

passing-expired :
    (seoul : ℕ) (now : Instant) (id : ℕ) (row : Option ReservationRow)
    → passing (λ _. is_listed seoul now) id (Option.map (expire_row now id) row)
      ≡ passing (λ _. is_upcoming seoul now) id row
passing-expired seoul now id none = refl
passing-expired seoul now id (some row) = ap to_ℕ (is_listed-expire_row seoul now id row)

module _ (seoul : ℕ) (now : Instant) (db : Tables) where
  abbrev with_count : ℕ × ReservationRow → Reservation
  with_count e = with_participant_count (expired_tables now db) e.0 e.1

  abbrev in_window : List (ℕ × ReservationRow)
  in_window = select (λ _. is_listed seoul now) (expired_tables now db).reservations

  abbrev IsWithin : Reservation → Type 0
  IsWithin r =
      (is_live r.status ≡ true)
      × (now < r.start_at + listing_grace)
      × (r.start_at < window_end seoul now)

  IsWithin-with_count :
      (e : ℕ × ReservationRow) → is_listed seoul now e.1 ≡ true → IsWithin (with_count e)
  unfolding with_participant_count
  IsWithin-with_count e h = (ground arith, ground arith, ground arith)

  abbrev listed_rows : List (ℕ × ReservationRow)
  listed_rows = sort_by listed_before in_window

  pub list_upcoming-eq :
      list_upcoming seoul now db
      ≡ ok (with_counts (expired_tables now db) listed_rows, expired_tables now db)
  unfolding list_upcoming expire_finished
  list_upcoming-eq = refl

  module _ (out : List Reservation) (db' : Tables)
      (listed : list_upcoming seoul now db ≡ ok (out, db')) where
    out-eq : with_counts (expired_tables now db) listed_rows ≡ out
    out-eq = ground (arith, list_upcoming-eq)

    tables-eq : expired_tables now db ≡ db'
    tables-eq = ground (arith, list_upcoming-eq)

    -- Listing retires first, so it keeps the tables consistent.
    pub list_upcoming-IsConsistent : IsConsistent db → IsConsistent db'
    list_upcoming-IsConsistent c = rw (← tables-eq) (expire-IsConsistent now db c)

    -- What is listed is live, starts less than an hour ago or later, and before the window's end.
    pub list_upcoming-within :
        All
          (λ r.
            (is_live r.status ≡ true)
            × (now < r.start_at + listing_grace)
            × (r.start_at < window_end seoul now))
          out
    list_upcoming-within = rw (← out-eq) (
        All-map with_count IsWithin listed_rows (
          All-sort_by listed_before (λ e. IsWithin (with_count e)) in_window
            (All-mono in_window IsWithin-with_count
              (All-select (λ _. is_listed seoul now) (expired_tables now db).reservations))))

    listed_once :
        IsKeyed db.reservations
        → (id : ℕ)
        → count_of (λ r. r.id == id) out
          ≡ passing (λ _. is_upcoming seoul now) id (lookup id db.reservations)
    unfolding with_participant_count
    listed_once keyed id = rw (← out-eq) (
        count_of-map with_count (λ r. r.id == id) listed_rows
        ∙ count_of-sort_by (λ e. e.0 == id) listed_before in_window
        ∙ count_of-select (λ _. is_listed seoul now) id (expired_tables now db).reservations
            (map_values-IsKeyed (expire_row now) db.reservations keyed)
        ∙ ap (passing (λ _. is_listed seoul now) id)
            (lookup-map_values (expire_row now) id db.reservations)
        ∙ passing-expired seoul now id (lookup id db.reservations))

    listed_sorted : IsSortedBy comes_before out
    unfolding with_participant_count
    listed_sorted = rw (← out-eq) (
        IsSortedBy-map with_count comes_before listed_rows (
          IsSortedBy-mono listed_before (λ x y. comes_before (with_count x) (with_count y))
            listed_rows (λ x y h. ground arith)
            (sort_by-IsSortedBy listed_before listed_before_asym listed_before_trans in_window)))

    -- Where the keys are distinct, each stored reservation that is open or matched, starts less than
    -- an hour ago or later, and before the window's end, is listed once, and no other is; the listing
    -- is ordered by start, and among equal starts open ones come first.
    pub list_upcoming-once :
        IsKeyed db.reservations
        → (id : ℕ)
        → (count_of (λ r. r.id == id) out
            ≡ passing (λ _. is_upcoming seoul now) id (lookup id db.reservations))
          × IsSortedBy comes_before out
    list_upcoming-once keyed id = (listed_once keyed id, listed_sorted)
