-- ===== src/History/Snapshots.antt =====
-- What recording, touching and searching rank matches keep and find.
use tag2now_be.Prelude.{
  ℕ, ◌+◌, ◌≤◌, ◌≡◌, refl, String, Bool, true, some, List, [], ◌∷◌, arith, Table, lookup, find?,
  count, select, sort_by, count-insert_new, count-find_none, count-map_values_same, eq_iff, All,
  All-mono, All-found, All-found_lookup, IsKeyed, count-find_some, str_eq, ◌==◌, ◌&&◌, ◌∙◌, ◌⊎◌,
  IsSortedBy, sort_by-IsSortedBy, Bool-cases, Option-cases, inl, inr,
}
use tag2now_be.Time.{Instant}
use tag2now_be.History.Rows.{
  RankMatchSnapshotRow, Tables, RankMatchSnapshotRecord, RankRoom, same_match,
}
use tag2now_be.History.Repository.{
  snapshot_row, insert_snapshot, record_snapshots, record_snapshot, touched, touch_rank_matches,
  is_live_room, later_room, first_room, find_rank_room, room_end_slack, stat_day,
}
use tag2now_be.History.Recording.{
  IsBelow, IsBelow-lookup, insert_snapshot-IsBelow, IsRecorded, record_snapshots-IsRecorded,
}

-- The row is of this room, of these two players and of this stat day.
abbrev pub is_row_of : ℕ → String → String → ℕ → RankMatchSnapshotRow → Bool
is_row_of room_id user1_npid user2_npid date row =
    room_id == row.room_id
    && str_eq user1_npid row.user1_npid
    && str_eq user2_npid row.user2_npid
    && date == row.match_date

-- No match has two rows: a match is a room, its two players and the day.
abbrev pub IsUnique : Table RankMatchSnapshotRow → Type 0
IsUnique rows =
    (room_id : ℕ) (user1_npid user2_npid : String) (date : ℕ)
    → count (is_row_of room_id user1_npid user2_npid date) rows ≤ 1

-- Counted against any row.
abbrev HasNoTwin : Table RankMatchSnapshotRow → Type 0
HasNoTwin rows = (m : RankMatchSnapshotRow) → count (same_match m) rows ≤ 1

HasNoTwin-IsUnique : (rows : Table RankMatchSnapshotRow) → HasNoTwin rows → IsUnique rows
HasNoTwin-IsUnique rows h room_id user1_npid user2_npid date = h (record {
  room_id = room_id;
  created_dt = 0;
  last_seen_at = 0;
  match_date = date;
  rank_id = 0;
  user1_npid = user1_npid;
  user1_online_name = "";
  user2_npid = user2_npid;
  user2_online_name = "";
})

same_match-swap :
    (a b c : RankMatchSnapshotRow) → same_match a b ≡ true → same_match a c ≡ same_match b c
same_match-swap a b c h = ground (
  arith,
  eq_iff a.user1_npid b.user1_npid,
  eq_iff a.user2_npid b.user2_npid,
  eq_iff a.user1_npid c.user1_npid,
  eq_iff a.user2_npid c.user2_npid,
  eq_iff b.user1_npid c.user1_npid,
  eq_iff b.user2_npid c.user2_npid,
)

count-same :
    (a b : RankMatchSnapshotRow) (rows : Table RankMatchSnapshotRow)
    → same_match a b ≡ true
    → count (same_match a) rows ≡ count (same_match b) rows
unfolding count
count-same a b [] h = refl
count-same a b ((k, v) ∷ rows) h = ground (arith, count-same a b rows h, same_match-swap a b v h)

insert_snapshot-HasNoTwin :
    (id : ℕ) (row : RankMatchSnapshotRow) (rows : Table RankMatchSnapshotRow)
    → IsBelow id rows
    → HasNoTwin rows
    → HasNoTwin (insert_snapshot id row rows)
insert_snapshot-HasNoTwin id row rows h u m = ground (
  arith,
  u m,
  count-insert_new (same_match m) id row rows (IsBelow-lookup id rows h),
  count-find_none (same_match row) rows,
  count-same m row rows,
)

record_snapshots-HasNoTwin :
    (id : ℕ) (rooms : List RankMatchSnapshotRecord) (rows : Table RankMatchSnapshotRow)
    → IsBelow id rows
    → HasNoTwin rows
    → HasNoTwin (record_snapshots id rooms rows)
unfolding record_snapshots
record_snapshots-HasNoTwin id [] rows h u = u
record_snapshots-HasNoTwin id (room ∷ rooms) rows h u =
    record_snapshots-HasNoTwin (id + 1) rooms (insert_snapshot id (snapshot_row room) rows)
      (insert_snapshot-IsBelow id (snapshot_row room) rows h)
      (insert_snapshot-HasNoTwin id (snapshot_row room) rows h u)

touched-same_match :
    (rooms : List RankMatchSnapshotRecord) (observed_at : Instant) (m row : RankMatchSnapshotRow)
    → same_match m (touched rooms observed_at row) ≡ same_match m row
unfolding touched
touched-same_match rooms observed_at m row = ground arith

touched-count :
    (seen : List RankMatchSnapshotRecord) (observed_at : Instant) (m : RankMatchSnapshotRow)
    (db : Tables)
    → count (same_match m) (touch_rank_matches seen observed_at db).rank_match_snapshots
      ≡ count (same_match m) db.rank_match_snapshots
unfolding touch_rank_matches
touched-count seen observed_at m db =
    count-map_values_same (same_match m) (λ _. touched seen observed_at) db.rank_match_snapshots
      (λ k v. touched-same_match seen observed_at m v)

-- The match of the room has one row.
abbrev pub IsRecordedOnce : Table RankMatchSnapshotRow → RankMatchSnapshotRecord → Type 0
IsRecordedOnce rows room =
    count (is_row_of room.room_id room.user1_npid room.user2_npid (stat_day room.created_dt)) rows
    ≡ 1

IsRecorded-Once :
    (rows : Table RankMatchSnapshotRow) (room : RankMatchSnapshotRecord)
    → HasNoTwin rows
    → IsRecorded rows room
    → IsRecordedOnce rows room
IsRecorded-Once rows room u there =
    elim (Option-cases (find? (same_match (snapshot_row room)) rows)) [
      | inl absent ↦ absurd (ground arith)
      | inr ((k, row), found) ↦ omega (
        arith,
        u (snapshot_row room),
        count-find_some (same_match (snapshot_row room)) rows k row found,
      )
    ]

pub record_snapshots-once :
    (id : ℕ) (rooms : List RankMatchSnapshotRecord) (rows : Table RankMatchSnapshotRow)
    → IsBelow id rows
    → IsUnique rows
    → IsUnique (record_snapshots id rooms rows)
      × All (IsRecordedOnce (record_snapshots id rooms rows)) rooms
record_snapshots-once id rooms rows h u =
    let no_twin : HasNoTwin (record_snapshots id rooms rows) =
      record_snapshots-HasNoTwin id rooms rows h
        (λ m. u m.room_id m.user1_npid m.user2_npid m.match_date) in
    (
      HasNoTwin-IsUnique (record_snapshots id rooms rows) no_twin,
      All-mono rooms
          (λ (room : RankMatchSnapshotRecord) there.
            IsRecorded-Once (record_snapshots id rooms rows) room no_twin there)
          (record_snapshots-IsRecorded id rooms rows h),
    )

-- After matches are recorded under fresh keys and then touched, each recorded match has exactly one
-- row, of its room, its two players and the stat day of its creation, and no match has two, if none
-- had two before.
pub snapshots-IsUnique :
    (id : ℕ) (rooms seen : List RankMatchSnapshotRecord) (observed_at : Instant) (db : Tables)
    → IsBelow id db.rank_match_snapshots
    → IsUnique db.rank_match_snapshots
    → let after = touch_rank_matches seen observed_at (record_snapshot id rooms db) in
      IsUnique after.rank_match_snapshots × All (IsRecordedOnce after.rank_match_snapshots) rooms
unfolding record_snapshot
snapshots-IsUnique id rooms seen observed_at db h u =
    let recorded = record_snapshots id rooms db.rank_match_snapshots in
    let no_twin : HasNoTwin recorded =
      record_snapshots-HasNoTwin id rooms db.rank_match_snapshots h
        (λ m. u m.room_id m.user1_npid m.user2_npid m.match_date) in
    let kept = λ (m : RankMatchSnapshotRow).
      touched-count seen observed_at m (record_snapshot id rooms db) in
    (
      HasNoTwin-IsUnique
          (touch_rank_matches seen observed_at (record_snapshot id rooms db)).rank_match_snapshots
          (λ m. omega (arith, no_twin m, kept m)),
      All-mono rooms
          (λ (room : RankMatchSnapshotRecord) (there : IsRecorded recorded room).
            kept (snapshot_row room) ∙ IsRecorded-Once recorded room no_twin there)
          (record_snapshots-IsRecorded id rooms db.rank_match_snapshots h),
    )

-- The player is in the room, which was opened by the time and was seen since, up to the slack.
abbrev pub IsLive : String → Instant → RankMatchSnapshotRow → Type 0
IsLive npid at row =
    ((row.user1_npid ≡ npid) ⊎ (row.user2_npid ≡ npid))
    × (row.created_dt ≤ at)
    × (at ≤ row.last_seen_at + room_end_slack)

IsLive-passes :
    (npid : String) (at : Instant) (row : RankMatchSnapshotRow)
    → IsLive npid at row
    → is_live_room npid at row ≡ true
unfolding is_live_room
IsLive-passes npid at row (inl first, opened, seen) = ground (arith, eq_iff row.user1_npid npid)
IsLive-passes npid at row (inr second, opened, seen) = ground (arith, eq_iff row.user2_npid npid)

is_live_room-IsLive :
    (npid : String) (at : Instant) (row : RankMatchSnapshotRow)
    → is_live_room npid at row ≡ true
    → IsLive npid at row
unfolding is_live_room
is_live_room-IsLive npid at row live = elim (Bool-cases (str_eq row.user1_npid npid)) [
  | inl first ↦ (inl ((eq_iff row.user1_npid npid).0 first), ground arith, ground arith)
  | inr other ↦ (inr ((eq_iff row.user2_npid npid).0 (ground arith)), ground arith, ground arith)
]

-- The row of the room.
abbrev pub IsRoomRow : Tables → RankRoom → RankMatchSnapshotRow → Type 0
IsRoomRow db room row =
    (lookup room.room_snapshot_id db.rank_match_snapshots ≡ some row)
    × (room.user1_npid ≡ row.user1_npid)
    × (room.user2_npid ≡ row.user2_npid)

first_room-IsLive :
    (npid : String) (at : Instant) (db : Tables) (rows : Table RankMatchSnapshotRow)
    → IsSortedBy later_room rows
    → All
        (λ e. (lookup e.0 db.rank_match_snapshots ≡ some e.1) × (is_live_room npid at e.1 ≡ true))
        rows
    → (room : RankRoom) → first_room rows ≡ some room
    → (row : RankMatchSnapshotRow) × IsRoomRow db room row
      × IsLive npid at row
      × All (λ e. e.1.created_dt ≤ row.created_dt) rows
first_room-IsLive npid at db [] sorted live room e = absurd (ground arith)
first_room-IsLive npid at db ((id, row) ∷ rows) sorted live room e =
    let same : record {
      room_snapshot_id = id;
      user1_npid = row.user1_npid;
      user2_npid = row.user2_npid;
    }
        ≡ room =
      ground arith in
    (
      row,
      rw (← same) (live.0.0, refl, refl),
      is_live_room-IsLive npid at row live.0.1,
      (omega arith, All-mono rows (λ x k. ground arith) sorted.0),
    )

-- The room that is found, and that it was opened no earlier than the other rows that pass.
found_room-IsLive :
    (npid : String) (at : Instant) (db : Tables) (room : RankRoom)
    → IsKeyed db.rank_match_snapshots
    → find_rank_room npid at db ≡ some room
    → (row : RankMatchSnapshotRow) × IsRoomRow db room row
      × IsLive npid at row
      × All
          (λ e. e.1.created_dt ≤ row.created_dt)
          (sort_by later_room (select (λ _. is_live_room npid at) db.rank_match_snapshots))
unfolding find_rank_room
found_room-IsLive npid at db room keyed e =
    let found = select (λ _. is_live_room npid at) db.rank_match_snapshots in
    first_room-IsLive npid at db (sort_by later_room found)
      (sort_by-IsSortedBy later_room (λ x y h. ground arith) (λ x y z h k. ground arith) found)
      (All-found later_room (is_live_room npid at) db.rank_match_snapshots keyed) room e

pub find_rank_room-IsLive :
    (npid : String) (at : Instant) (db : Tables) (room : RankRoom)
    → IsKeyed db.rank_match_snapshots
    → find_rank_room npid at db ≡ some room
    → (row : RankMatchSnapshotRow) × IsRoomRow db room row × IsLive npid at row
find_rank_room-IsLive npid at db room keyed e =
    let (row, its, live, _) = found_room-IsLive npid at db room keyed e in (row, its, live)

-- Where the table's keys are distinct, the room that is found is a row of the table, under the room's
-- key and with its players; the player is one of the two, the row was opened by the time and was seen
-- since, up to the slack; and no other row of the table of which this holds was opened later.
pub find_rank_room-newest :
    (npid : String) (at : Instant) (db : Tables) (room : RankRoom) (k : ℕ)
    (other : RankMatchSnapshotRow)
    → IsKeyed db.rank_match_snapshots
    → find_rank_room npid at db ≡ some room
    → lookup k db.rank_match_snapshots ≡ some other
    → IsLive npid at other
    → (row : RankMatchSnapshotRow) × IsRoomRow db room row
      × IsLive npid at row
      × (other.created_dt ≤ row.created_dt)
find_rank_room-newest npid at db room k other keyed e there live =
    let (row, its, live_row, newest) = found_room-IsLive npid at db room keyed e in
    (
      row,
      its,
      live_row,
      All-found_lookup (λ e. e.1.created_dt ≤ row.created_dt) later_room (is_live_room npid at)
          db.rank_match_snapshots k other newest there (IsLive-passes npid at other live),
    )
