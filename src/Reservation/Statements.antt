-- ===== src/Reservation/Statements.antt =====
-- reservation/adapters/postgresql.py: the statements that its methods are made of. A statement is
-- the update or the query that its SQL states.
use tag2now_be.Prelude.{
  ℕ, ◌+◌, String, Bool, ◌&&◌, ◌||◌, Option, none, some, List, map, Error, not_found, Tx, gets,
  modify, or_raise, ◌>>=◌, ◌>>◌, Table, lookup, insert, count, find?, select, map_values, sort_by,
  is_none, ltb, leb, ◌==◌, if◌then◌else◌,
}
use tag2now_be.Time.{Instant}
use tag2now_be.Reservation.Domain.{ReservationStatus, ended, is_live, is_open, listing_grace}
use tag2now_be.Reservation.Rows.{
  ReservationRow, CommentRow, ParticipantRow, Tables, is_active_in, is_active_by,
  ParticipantSummary, Reservation, Comment,
}

abbrev pub reservation_missing : Error
reservation_missing = not_found "Reservation not found"

unfoldable pub to_comment : ℕ → CommentRow → Comment
to_comment id row = record {
  id = id;
  reservation_id = row.reservation_id;
  author = row.author;
  body = row.body;
  created_at = row.created_at;
  author_username = row.author_subject;
}

unfoldable pub to_reservation : ℕ → ReservationRow → ℕ → List ParticipantSummary → Reservation
to_reservation id row participant_count participants = record {
  id = id;
  start_at = row.start_at;
  host_display_name = row.host_display_name;
  host_ranks = row.host_ranks;
  match_type = row.match_type;
  capacity = row.capacity;
  memo = row.memo;
  status = row.status;
  participant_count = participant_count;
  created_at = row.created_at;
  participants = participants;
  host_username = row.host_subject;
}

abbrev to_summary : ℕ × ParticipantRow → ParticipantSummary
to_summary (id, p) = record { id = id; display_name = p.display_name; username = p.subject }

-- `aggregate_order_by(…, joined_at, id)`.
abbrev joined_before : ℕ × ParticipantRow → ℕ × ParticipantRow → Bool
joined_before (i, p) (j, q) = ltb p.joined_at q.joined_at || (p.joined_at == q.joined_at && ltb i j)

-- A row of `_with_participant_count`: the outer join with the live seats, grouped by reservation.
unfoldable pub with_participant_count : Tables → ℕ → ReservationRow → Reservation
unfolding to_reservation
with_participant_count db id row =
    to_reservation id row (count (is_active_in id) db.participants)
      (map to_summary (sort_by joined_before (select (λ _. is_active_in id) db.participants)))

unfoldable pub finished : Instant → ReservationRow → Bool
finished now row = is_live row.status && leb (row.start_at + listing_grace) now

-- `reservation_id IN (SELECT id … WHERE finished)`.
abbrev pub is_finished_id : Instant → Table ReservationRow → ℕ → Bool
is_finished_id now t id = elim (lookup id t) [ none ↦ Bool.false | some row ↦ finished now row ]

-- The two bulk updates of `_expire_finished`, on one row.
unfoldable pub expire_seat : Instant → Table ReservationRow → ℕ → ParticipantRow → ParticipantRow
expire_seat now reservations id p =
    if is_none p.cancelled_at && is_finished_id now reservations p.reservation_id
    then record p { cancelled_at = some now }
    else p

unfoldable pub expire_row : Instant → ℕ → ReservationRow → ReservationRow
expire_row now id row =
    if finished now row
    then record row { status = ended; ended_at = some now; updated_at = now }
    else row

unfoldable pub expire_finished : Instant → Tx Tables (Unit {0})
expire_finished now = do
  modify λ db. record db {
    participants = map_values (expire_seat now db.reservations) db.participants;
  }
  modify λ db. record db { reservations = map_values (expire_row now) db.reservations }

abbrev pub active_participant_count : ℕ → Tx Tables ℕ
active_participant_count reservation_id =
    gets (λ db. count (is_active_in reservation_id) db.participants)

abbrev pub active_participation : ℕ → String → Tx Tables (Option (ℕ × ParticipantRow))
active_participation reservation_id subject =
    gets (λ db. find? (is_active_by reservation_id subject) db.participants)

unfoldable pub release_seat : ℕ → Instant → ℕ → ParticipantRow → ParticipantRow
release_seat reservation_id now id p =
    if is_active_in reservation_id p then record p { cancelled_at = some now } else p

unfoldable pub release_participants : ℕ → Instant → Tx Tables (Unit {0})
release_participants reservation_id now =
    modify λ db. record db {
      participants = map_values (release_seat reservation_id now) db.participants;
    }

-- `select(ReservationRow).where(id == …).with_for_update()`.
abbrev pub reservation_row : ℕ → Tx Tables ReservationRow
reservation_row reservation_id = do
  found ← gets (λ db. lookup reservation_id db.reservations)
  or_raise found reservation_missing

-- What a flush writes back of a row that was loaded and changed.
abbrev pub save_reservation : ℕ → ReservationRow → Tx Tables (Unit {0})
save_reservation id row = modify λ db. record db { reservations = insert id row db.reservations }

abbrev pub save_participant : ℕ → ParticipantRow → Tx Tables (Unit {0})
save_participant id p = modify λ db. record db { participants = insert id p db.participants }

-- The order of the listing: by start, open reservations first.
abbrev pub open_first : ReservationStatus → ℕ
open_first status = if is_open status then 0 else 1

abbrev pub listed_before : ℕ × ReservationRow → ℕ × ReservationRow → Bool
listed_before (_, r) (_, s) =
    ltb r.start_at s.start_at
    || (r.start_at == s.start_at && ltb (open_first r.status) (open_first s.status))
