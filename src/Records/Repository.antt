-- ===== src/Records/Repository.antt =====
-- records/adapters/postgresql.py: the writes of `PostgresRecordsAdapter`, each inside the caller's
-- transaction. A generated key is the argument `id`. The locks order concurrent transactions and
-- change nothing in one.
use tag2now_be.Prelude.{
  ℕ, ◌+◌, ◌-◌, ◌*◌, String, Bool, true, false, ◌&&◌, Option, none, some, List, [], ◌∷◌, Error,
  integrity_error, Tx, pure, gets, modify, lift, raise_if, ◌>>=◌, Table, lookup, insert, select,
  find?, sort_by, is_none, is_some, to_ℕ, ltb, leb, ◌==◌, str_eq, if◌then◌else◌,
}
use tag2now_be.Prelude.Dict
use tag2now_be.Time.{Instant, second}
use tag2now_be.History.Rows.{RankRoom}
use tag2now_be.Records.Domain.{Side, p1, p2, PlayerSave, PlayerMatch}
use tag2now_be.Records.Rows.{
  SaveStateRow, pending, done, dead, MatchEventRow, MatchRow, Tables, MatchEvent, is_pending, names,
  event_id, with_event,
}

abbrev pub max_attempts : ℕ
max_attempts = 5

abbrev pub retry_delay : ℕ
retry_delay = 30 * second

abbrev pub same_match_window : ℕ
same_match_window = 60 * second

unfoldable pub to_save : String → SaveStateRow → PlayerSave
to_save npid row = record {
  npid = npid;
  data_id = row.data_id;
  saved_at = row.saved_at;
  wins = row.wins;
  losses = row.losses;
  tallies = row.chars;
  entered_chars = row.start_chars;
}

abbrev pub to_event : ℕ → MatchEventRow → MatchEvent
to_event id row = record {
  id = id;
  npid = row.npid;
  outcome = row.outcome;
  chars = row.chars;
  saved_at = row.saved_at;
  ranks = row.ranks;
  attempts = row.attempts;
}

-- The greatest `data_id` of the states, 0 without one.
unfoldable pub latest_of : Dict.Dict SaveStateRow → ℕ
latest_of [] = 0
latest_of ((_, row) ∷ rows) =
    let rest = latest_of rows in if ltb rest row.data_id then row.data_id else rest

abbrev pub latest_data_id : Tx Tables ℕ
latest_data_id = gets (λ db. latest_of db.save_states)

abbrev state_of : String → Option SaveStateRow → Option PlayerSave
state_of npid none = none
state_of npid (some row) = some (to_save npid row)

abbrev pub lock_state : String → Tx Tables (Option PlayerSave)
lock_state npid = gets (λ db. state_of npid (Dict.lookup npid db.save_states))

-- A first state has the column's default, whatever `merged` is.
abbrev merged_after : Option SaveStateRow → Bool → ℕ
merged_after none merged = 0
merged_after (some row) merged = row.merged_count + to_ℕ merged

unfoldable pub state_row : Option SaveStateRow → PlayerSave → Bool → SaveStateRow
state_row old save merged = record {
  data_id = save.data_id;
  saved_at = save.saved_at;
  wins = save.wins;
  losses = save.losses;
  chars = save.tallies;
  start_chars = save.entered_chars;
  merged_count = merged_after old merged;
}

abbrev pub save_state : PlayerSave → Bool → Tx Tables (Unit {0})
save_state save merged = modify λ db. record db {
  save_states =
      Dict.insert save.npid (state_row (Dict.lookup save.npid db.save_states) save merged)
        db.save_states;
}

-- `uq_match_events_save`.
abbrev pub is_of_save : String → ℕ → MatchEventRow → Bool
is_of_save npid data_id row = str_eq row.npid npid && row.data_id == data_id

unfoldable pub event_row : PlayerSave → PlayerMatch → Instant → MatchEventRow
event_row save match now = record {
  npid = save.npid;
  data_id = save.data_id;
  outcome = match.outcome;
  chars = match.chars;
  ranks = some match.ranks;
  saved_at = save.saved_at;
  status = pending;
  attempts = 0;
  available_at = now;
  last_error = none;
}

-- `ON CONFLICT DO NOTHING`.
abbrev pub insert_event : ℕ → MatchEventRow → Table MatchEventRow → Table MatchEventRow
insert_event id row rows =
    let written = insert id row rows in
    if is_some (find? (is_of_save row.npid row.data_id) rows) then rows else written

abbrev pub add_event : ℕ → PlayerSave → PlayerMatch → Instant → Tx Tables (Unit {0})
add_event id save match now =
    modify
      λ db. record db { match_events = insert_event id (event_row save match now) db.match_events }

abbrev pub is_due : Instant → MatchEventRow → Bool
is_due now row = is_pending row.status && leb row.available_at now

abbrev pub lower_id : {V : Type 0} → ℕ × V → ℕ × V → Bool
lower_id a b = ltb a.0 b.0

abbrev pub first_event : List (ℕ × MatchEventRow) → Option MatchEvent
first_event [] = none
first_event ((id, row) ∷ rows) = some (to_event id row)

unfoldable pub claim_event : Instant → Tx Tables (Option MatchEvent)
claim_event now =
    gets λ db. first_event (sort_by lower_id (select (λ _. is_due now) db.match_events))

unfoldable pub update_event :
    (MatchEventRow → MatchEventRow) → ℕ → Table MatchEventRow → Table MatchEventRow
update_event f id rows = elim (lookup id rows) [ none ↦ rows | some row ↦ insert id (f row) rows ]

abbrev pub finished : MatchEventRow → MatchEventRow
finished row = record row { status = done; last_error = none }

unfoldable pub finish_event : ℕ → Tx Tables (Unit {0})
finish_event id =
    modify (λ db. record db { match_events = update_event finished id db.match_events })

unfoldable pub failed : ℕ → Error → Instant → MatchEventRow → MatchEventRow
failed attempts error now row = record row {
  attempts = attempts;
  last_error = some error;
  available_at = now + retry_delay * attempts;
  status = (if leb max_attempts attempts then dead else pending);
}

unfoldable pub fail_event : MatchEvent → Error → Instant → Tx Tables (Unit {0})
fail_event event error now = modify λ db. record db {
  match_events = update_event (failed (event.attempts + 1) error now) event.id db.match_events;
}

abbrev pub is_side : Side → Side → Bool
is_side p1 p1 = true
is_side p2 p2 = true
is_side _ _ = false

-- The `WHERE` of `fill_side`.
unfoldable pub lacks_side : MatchEvent → RankRoom → Side → Side → MatchRow → Bool
lacks_side event room side winner row =
    names row.room_snapshot_id room.room_snapshot_id
    && is_side row.winner winner
    && is_none (event_id side row)
    && leb event.saved_at (row.played_at + same_match_window)
    && leb row.played_at (event.saved_at + same_match_window)

abbrev pub distance : Instant → Instant → ℕ
distance a b = (a - b) + (b - a)

abbrev pub nearer : Instant → ℕ × MatchRow → ℕ × MatchRow → Bool
nearer at (_, a) (_, b) = ltb (distance a.played_at at) (distance b.played_at at)

abbrev pub first_match : List (ℕ × MatchRow) → Option (ℕ × MatchRow)
first_match [] = none
first_match (m ∷ ms) = some m

unfoldable pub nearest_match :
    MatchEvent → RankRoom → Side → Side → Table MatchRow → Option (ℕ × MatchRow)
nearest_match event room side winner rows =
    first_match
      (sort_by (nearer event.saved_at) (select (λ _. lacks_side event room side winner) rows))

-- `uq_matches_p1_event` and `uq_matches_p2_event`.
abbrev pub is_taken : Side → ℕ → Table MatchRow → Bool
is_taken side id rows = is_some (find? (λ row. names (event_id side row) id) rows)

unfoldable pub fill_side : MatchEvent → RankRoom → Side → Side → Tx Tables Bool
fill_side event room side winner = do
  found ← gets (λ db. nearest_match event room side winner db.matches)
  elim found [
    | none ↦ pure false
    | some (match_id, row) ↦ do
      taken ← gets (λ db. is_taken side event.id db.matches)
      _ ← lift (raise_if taken integrity_error)
      _ ←
          modify (λ db. record db {
            matches = insert match_id (with_event side event.id row) db.matches;
          })
      pure true
  ]

abbrev pub unseen_match : MatchEvent → Option RankRoom → Side → MatchRow
unseen_match event none winner = record {
  played_at = event.saved_at;
  room_snapshot_id = none;
  p1_npid = event.npid;
  p2_npid = none;
  winner = winner;
  p1_event_id = none;
  p2_event_id = none;
}
unseen_match event (some room) winner = record {
  played_at = event.saved_at;
  room_snapshot_id = some room.room_snapshot_id;
  p1_npid = room.user1_npid;
  p2_npid = some room.user2_npid;
  winner = winner;
  p1_event_id = none;
  p2_event_id = none;
}

abbrev pub match_row : MatchEvent → Option RankRoom → Side → Side → MatchRow
match_row event room side winner = with_event side event.id (unseen_match event room winner)

unfoldable pub add_match : ℕ → MatchEvent → Option RankRoom → Side → Side → Tx Tables (Unit {0})
add_match id event room side winner = do
  taken ← gets (λ db. is_taken side event.id db.matches)
  _ ← lift (raise_if taken integrity_error)
  modify (λ db. record db { matches = insert id (match_row event room side winner) db.matches })
