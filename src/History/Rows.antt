-- ===== src/History/Rows.antt =====
-- The tables of history/entities.py and the records of history/models.py. A date is its number of
-- days since 0001-01-01.
use tag2now_be.Prelude.{
  ℕ, String, Bool, ◌&&◌, Option, none, some, Table, ◌==◌, str_eq, if◌then◌else◌,
}
use tag2now_be.Time.{Instant}

pub record RankMatchSnapshotRow : Type 0 where
  pub room_id : ℕ
  pub created_dt : Instant
  pub last_seen_at : Instant
  pub match_date : ℕ
  pub rank_id : ℕ
  pub user1_npid : String
  pub user1_online_name : String
  pub user2_npid : String
  pub user2_online_name : String

-- The later entry of the dict wins when both members have one name.
unfoldable pub online_name_of : RankMatchSnapshotRow → String → Option String
online_name_of row npid =
    if str_eq row.user2_npid npid
    then some row.user2_online_name
    else if str_eq row.user1_npid npid
    then some row.user1_online_name
    else none

pub record DailyMatchedPlayerRow : Type 0 where
  pub date : ℕ
  pub npid : String
  pub first_seen_at : Instant

pub record ActivitySnapshotRow : Type 0 where
  pub sampled_at : Instant
  pub total_players : ℕ
  pub total_rooms : ℕ
  pub rank_players : ℕ
  pub rank_rooms : ℕ

pub record Tables : Type 0 where
  pub rank_match_snapshots : Table RankMatchSnapshotRow
  pub daily_matched_players : Table DailyMatchedPlayerRow
  pub activity_snapshots : Table ActivitySnapshotRow

pub record RankMatchSnapshotRecord : Type 0 where
  pub room_id : ℕ
  pub rank_id : ℕ
  pub user1_npid : String
  pub user1_online_name : String
  pub user2_npid : String
  pub user2_online_name : String
  pub created_dt : Instant

pub record RankRoom : Type 0 where
  pub room_snapshot_id : ℕ
  pub user1_npid : String
  pub user2_npid : String

-- `uq_rank_match_snapshots_match`.
abbrev pub same_match : RankMatchSnapshotRow → RankMatchSnapshotRow → Bool
same_match a b =
    a.room_id == b.room_id
    && str_eq a.user1_npid b.user1_npid
    && str_eq a.user2_npid b.user2_npid
    && a.match_date == b.match_date
