-- ===== src/History/Repository.antt =====
-- The writes of history/adapters/postgresql.py and the search of a player's room. Statements about
-- many rows take generated keys from `id` on. The averages of the statistics are SQL's floating
-- arithmetic and are left out.
use tag2now_be.Prelude.{
  ℕ, ◌+◌, ◌-◌, ◌*◌, ◌/◌, String, Bool, not, ◌&&◌, ◌||◌, Option, none, some, List, [], ◌∷◌, Table,
  insert, find?, select, map_values, sort_by, filter_by, is_some, any_of, ltb, leb, ◌==◌, str_eq,
  if◌then◌else◌,
}
use tag2now_be.Time.{Instant, second, hour, day}
use tag2now_be.History.Rows.{
  RankMatchSnapshotRow, DailyMatchedPlayerRow, ActivitySnapshotRow, Tables, RankMatchSnapshotRecord,
  RankRoom, same_match,
}

abbrev pub activity_retention_days : ℕ
activity_retention_days = 90

abbrev pub live_room_window : ℕ
live_room_window = 1 * day

abbrev pub room_end_slack : ℕ
room_end_slack = 90 * second

abbrev pub stat_day_start_hour : ℕ
stat_day_start_hour = 6

-- The offset of `STAT_DAY_TZ` from UTC.
abbrev pub stat_day_offset : ℕ
stat_day_offset = (9 - stat_day_start_hour) * hour

unfoldable pub stat_day : Instant → ℕ
stat_day moment = (moment + stat_day_offset) / day

unfoldable pub stat_day_start : ℕ → Instant
stat_day_start date = date * day - stat_day_offset

abbrev pub snapshot_row : RankMatchSnapshotRecord → RankMatchSnapshotRow
snapshot_row room = record {
  room_id = room.room_id;
  created_dt = room.created_dt;
  last_seen_at = room.created_dt;
  match_date = stat_day room.created_dt;
  rank_id = room.rank_id;
  user1_npid = room.user1_npid;
  user1_online_name = room.user1_online_name;
  user2_npid = room.user2_npid;
  user2_online_name = room.user2_online_name;
}

-- One row of the insert; `ON CONFLICT DO NOTHING`.
abbrev pub insert_snapshot :
    ℕ → RankMatchSnapshotRow → Table RankMatchSnapshotRow → Table RankMatchSnapshotRow
insert_snapshot id row rows =
    let written = insert id row rows in
    if is_some (find? (same_match row) rows) then rows else written

unfoldable pub record_snapshots :
    ℕ → List RankMatchSnapshotRecord → Table RankMatchSnapshotRow → Table RankMatchSnapshotRow
record_snapshots id [] rows = rows
record_snapshots id (room ∷ rooms) rows =
    record_snapshots (id + 1) rooms (insert_snapshot id (snapshot_row room) rows)

unfoldable pub record_snapshot : ℕ → List RankMatchSnapshotRecord → Tables → Tables
record_snapshot id rooms db = record db {
  rank_match_snapshots = record_snapshots id rooms db.rank_match_snapshots;
}

abbrev is_room_of : RankMatchSnapshotRow → RankMatchSnapshotRecord → Bool
is_room_of row room =
    row.room_id == room.room_id
    && str_eq row.user1_npid room.user1_npid
    && str_eq row.user2_npid room.user2_npid

unfoldable pub touched :
    List RankMatchSnapshotRecord → Instant → RankMatchSnapshotRow → RankMatchSnapshotRow
touched rooms observed_at row =
    if any_of (is_room_of row) rooms && leb observed_at (row.created_dt + live_room_window)
    then record row { last_seen_at = observed_at }
    else row

unfoldable pub touch_rank_matches : List RankMatchSnapshotRecord → Instant → Tables → Tables
touch_rank_matches rooms observed_at db = record db {
  rank_match_snapshots = map_values (λ _. touched rooms observed_at) db.rank_match_snapshots;
}

-- The `WHERE` of `find_rank_room`.
unfoldable pub is_live_room : String → Instant → RankMatchSnapshotRow → Bool
is_live_room npid at row =
    (str_eq row.user1_npid npid || str_eq row.user2_npid npid)
    && leb row.created_dt at
    && leb at (row.last_seen_at + room_end_slack)

abbrev pub later_room : ℕ × RankMatchSnapshotRow → ℕ × RankMatchSnapshotRow → Bool
later_room (_, a) (_, b) = ltb b.created_dt a.created_dt

abbrev pub first_room : List (ℕ × RankMatchSnapshotRow) → Option RankRoom
first_room [] = none
first_room ((id, row) ∷ rows) =
    some
      (record { room_snapshot_id = id; user1_npid = row.user1_npid; user2_npid = row.user2_npid })

unfoldable pub find_rank_room : String → Instant → Tables → Option RankRoom
find_rank_room npid at db =
    first_room (sort_by later_room (select (λ _. is_live_room npid at) db.rank_match_snapshots))

abbrev pub is_participant : ℕ → String → DailyMatchedPlayerRow → Bool
is_participant date npid row = row.date == date && str_eq row.npid npid

abbrev insert_participant :
    ℕ → DailyMatchedPlayerRow → Table DailyMatchedPlayerRow → Table DailyMatchedPlayerRow
insert_participant id row rows =
    let written = insert id row rows in
    if is_some (find? (is_participant row.date row.npid) rows) then rows else written

unfoldable pub record_participants :
    ℕ → List String → Instant → Table DailyMatchedPlayerRow → Table DailyMatchedPlayerRow
record_participants id [] observed_at rows = rows
record_participants id (npid ∷ npids) observed_at rows =
    record_participants (id + 1) npids observed_at (
      insert_participant id
        (record { date = stat_day observed_at; npid = npid; first_seen_at = observed_at }) rows)

-- An empty name is none of the players.
unfoldable pub record_daily_matched_players : ℕ → List String → Instant → Tables → Tables
record_daily_matched_players id npids observed_at db =
    let valid_npids = filter_by (λ n. not (str_eq n "")) npids in
    record db {
      daily_matched_players =
          record_participants id valid_npids observed_at db.daily_matched_players;
    }

-- The sample, and the deletion of what is past its retention at the database's `now`.
unfoldable pub record_activity_snapshot : ℕ → ActivitySnapshotRow → Instant → Tables → Tables
record_activity_snapshot id snapshot now db = record db {
  activity_snapshots =
      select (λ _ row. leb now (row.sampled_at + activity_retention_days * day))
        (insert id snapshot db.activity_snapshots);
}
