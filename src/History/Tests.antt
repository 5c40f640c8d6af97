-- ===== src/History/Tests.antt =====
-- Runs of the recorded matches at concrete inputs, and their theorems there.
use tag2now_be.Prelude.{
  ℕ, none, is_none, ◌⊎◌, inr, ◌+◌, ◌*◌, ◌≡◌, ◌≤◌, refl, true, false, some, [], ◌∷◌, arith, count,
  All, select, sort_by, find?, insert, filter_by, any_of,
}
use tag2now_be.Time.{Instant, hour, day, minute}
use tag2now_be.Chat.Domain.{day_start}
use tag2now_be.Matching.Rooms.{RoomInfo, rank_match}
use tag2now_be.History.Rows.{RankMatchSnapshotRow, Tables, RankMatchSnapshotRecord, RankRoom}
use tag2now_be.History.Repository.{
  snapshot_row, stat_day, stat_day_start, record_snapshots, record_snapshot, touch_rank_matches,
  is_live_room, find_rank_room,
}
use tag2now_be.History.Recording.{IsBelow}
use tag2now_be.History.Snapshots.{
  IsUnique, IsRecordedOnce, IsRoomRow, IsLive, snapshots-IsUnique, record_snapshots-once,
  find_rank_room-newest,
}
use tag2now_be.History.Collector.{
  IsWritten, unseen, to_snapshot_record, to_snapshot_records, write_new, record_new_rank_matches,
  record_new_rank_matches-HasRow,
}
use tag2now_be.History.Days.{stat_day_start-day_start}

abbrev no_rows : Tables
no_rows = record { rank_match_snapshots = []; daily_matched_players = []; activity_snapshots = [] }

abbrev opened : Instant
opened = 1000 * day

abbrev room : RankMatchSnapshotRecord
room = record {
  room_id = 4;
  rank_id = 20;
  user1_npid = "ann";
  user1_online_name = "Ann";
  user2_npid = "bob";
  user2_online_name = "Bob";
  created_dt = opened;
}

no_rows-IsUnique : IsUnique no_rows.rank_match_snapshots
unfolding count
no_rows-IsUnique m = omega arith

snapshots-IsUnique_example :
    let after =
      touch_rank_matches
        (room ∷ [])
        (opened + minute)
        (record_snapshot 1 (room ∷ room ∷ []) no_rows) in
    IsUnique after.rank_match_snapshots
    × All (IsRecordedOnce after.rank_match_snapshots) (room ∷ room ∷ [])
snapshots-IsUnique_example =
    snapshots-IsUnique 1 (room ∷ room ∷ []) (room ∷ []) (opened + minute) no_rows tt
      no_rows-IsUnique

abbrev recorded : Tables
recorded = record_snapshot 1 (room ∷ []) no_rows

abbrev found_room : RankRoom
found_room = record { room_snapshot_id = 1; user1_npid = "ann"; user2_npid = "bob" }

find-room : find_rank_room "bob" (opened + minute) recorded ≡ some found_room
unfolding find_rank_room record_snapshot record_snapshots is_live_room stat_day select sort_by
    insert find?
find-room = refl

abbrev only_row : RankMatchSnapshotRow
only_row = snapshot_row room

find_rank_room-newest_example :
    (row : RankMatchSnapshotRow) × IsRoomRow recorded found_room row
    × IsLive "bob" (opened + minute) row
    × (only_row.created_dt ≤ row.created_dt)
unfolding record_snapshot record_snapshots find? insert
find_rank_room-newest_example =
    find_rank_room-newest "bob" (opened + minute) recorded found_room 1 only_row (refl, tt)
      find-room refl (inr refl, omega arith, omega arith)

abbrev seen : ℕ → RoomInfo
seen room_id = record {
  room_id = room_id;
  owner_npid = "ann";
  owner_online_name = "Ann";
  current_members = 2;
  max_slots = 2;
  room_type = rank_match;
  rank_info = some (record { id = 20; name = "Fighter"; tier = "fighter" });
  users =
      record { online_name = "Ann"; avatar_url = ""; npid = "ann" }
      ∷ record { online_name = "Bob"; avatar_url = ""; npid = "bob" }
      ∷ [];
}

abbrev after_cycle : Tables
after_cycle = record_snapshot 2 (to_snapshot_record (seen 5) 20 (opened + minute) ∷ []) recorded

second-cycle :
    record_new_rank_matches 2 false (seen 4 ∷ seen 5 ∷ []) (opened + minute) (4 ∷ [], recorded)
    ≡ some (4 ∷ 5 ∷ [], after_cycle)
unfolding record_new_rank_matches write_new to_snapshot_records filter_by any_of
second-cycle = refl

recorded-IsBelow : IsBelow 2 recorded.rank_match_snapshots
unfolding record_snapshot record_snapshots find? insert
recorded-IsBelow = (omega arith, tt)

recorded-IsUnique : IsUnique recorded.rank_match_snapshots
unfolding record_snapshot record_snapshots
recorded-IsUnique =
    (record_snapshots-once 1 (room ∷ []) no_rows.rank_match_snapshots tt no_rows-IsUnique).0

record_new_rank_matches-HasRow_example :
    ((record_new_rank_matches 2 false (seen 4 ∷ seen 5 ∷ []) (opened + minute) (4 ∷ [], recorded)
        ≡ none)
      × ((false ≡ true)
          ⊎ (any_of (λ room. is_none room.rank_info) (unseen (4 ∷ []) (seen 4 ∷ seen 5 ∷ []))
              ≡ true)))
    ⊎ ((db' : Tables) × (record_new_rank_matches 2 false
            (seen 4 ∷ seen 5 ∷ [])
            (opened + minute)
            (4 ∷ [], recorded)
          ≡ some (4 ∷ 5 ∷ [], db'))
        × IsWritten (opened + minute) (unseen (4 ∷ []) (seen 4 ∷ seen 5 ∷ [])) recorded db')
record_new_rank_matches-HasRow_example =
    record_new_rank_matches-HasRow 2 false (seen 4 ∷ seen 5 ∷ []) (opened + minute) (4 ∷ [])
      recorded recorded-IsBelow recorded-IsUnique

stat_day_start-day_start_example : stat_day_start (stat_day opened) ≡ day_start (9 * hour) opened
stat_day_start-day_start_example = stat_day_start-day_start opened (omega arith)
