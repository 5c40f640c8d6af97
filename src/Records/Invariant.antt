-- ===== src/Records/Invariant.antt =====
-- What the tables of match records keep: each event is unique to its save, and stands on one side of
-- one match once it is resolved and on none before.
use tag2now_be.Prelude.{
  ℕ, ◌+◌, ◌≤◌, ◌≡◌, String, Bool, true, false, ◌||◌, Option, none, some, Table, lookup, count, to_ℕ,
  is_some, IsKeyed,
}
use tag2now_be.History.Rows.{RankMatchSnapshotRow}
use tag2now_be.Records.Domain.{MatchOutcome, Side, p1, p2, outcome_of}
use tag2now_be.Records.Rows.{EventStatus, done, MatchEventRow, MatchRow, Tables, names, event_id}
use tag2now_be.Records.Repository.{is_of_save}

abbrev pub is_done : EventStatus → Bool
is_done done = true
is_done _ = false

-- How many sides of matches hold the event.
abbrev pub sides : ℕ → Table MatchRow → ℕ
sides id rows = count (λ r. names r.p1_event_id id) rows + count (λ r. names r.p2_event_id id) rows

abbrev pub resolved : Option MatchEventRow → ℕ
resolved none = 0
resolved (some row) = to_ℕ (is_done row.status)

-- Whose save it was, and what it showed.
abbrev pub told_at : Option MatchEventRow → Option (Option String × MatchOutcome)
told_at none = none
told_at (some row) = some (some row.npid, row.outcome)

abbrev pub player_at : Side → MatchRow → Option String
player_at p1 row = some row.p1_npid
player_at p2 row = row.p2_npid

-- The two players of a recorded room.
abbrev pub players_of : Option RankMatchSnapshotRow → Option (String × Option String)
players_of none = none
players_of (some row) = some (row.user1_npid, some row.user2_npid)

-- The event on a side is of that side's player, and the match says of them what it showed; a match
-- with a room has the room's players; a match has seen a save, and has an opponent exactly when it
-- has a room.
pub record Fits (rooms : Table RankMatchSnapshotRow) (events : Table MatchEventRow) (row : MatchRow)
    : Type 0 where
  pub shown :
      (side : Side) (id : ℕ)
      → event_id side row ≡ some id
      → told_at (lookup id events) ≡ some (player_at side row, outcome_of side row.winner)
  pub seated :
      (id : ℕ)
      → row.room_snapshot_id ≡ some id
      → players_of (lookup id rooms) ≡ some (row.p1_npid, row.p2_npid)
  pub seen : (is_some row.p1_event_id || is_some row.p2_event_id) ≡ true
  pub roomed : is_some row.room_snapshot_id ≡ is_some row.p2_npid

pub record IsResolved (db : Tables) : Type 0 where
  pub events_keyed : IsKeyed db.match_events
  pub matches_keyed : IsKeyed db.matches
  pub rooms_keyed : IsKeyed db.history.rank_match_snapshots
  pub once : (npid : String) (data_id : ℕ) → count (is_of_save npid data_id) db.match_events ≤ 1
  pub placed : (id : ℕ) → sides id db.matches ≡ resolved (lookup id db.match_events)
  pub fits :
      (k : ℕ) (row : MatchRow)
      → lookup k db.matches ≡ some row
      → Fits db.history.rank_match_snapshots db.match_events row
