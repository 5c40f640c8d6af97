-- ===== src/History/Collector.antt =====
-- history/collector.py: which rank matches a cycle records. `fault` says that the write of the cycle
-- fails; the rooms are those of the matching service's observation.
use tag2now_be.Prelude.{
  ℕ, zero, suc, ◌≡◌, String, Bool, true, not, Option, none, some, List, [], ◌∷◌, map, arith, Table,
  lookup, count, refl, is_none, ◌⊎◌, any_of, filter_by, ◌==◌, if◌then◌else◌, All, All-mono, inl,
  inr, Bool-cases, Option-cases,
}
use tag2now_be.Time.{Instant}
use tag2now_be.Matching.Rooms.{RoomInfo, RoomUser}
use tag2now_be.History.Rows.{RankMatchSnapshotRow, Tables, RankMatchSnapshotRecord}
use tag2now_be.History.Repository.{stat_day, record_snapshots, record_snapshot}
use tag2now_be.History.Recording.{IsBelow, record_snapshots-old}
use tag2now_be.History.Snapshots.{IsUnique, IsRecordedOnce, is_row_of, record_snapshots-once}

abbrev user_at : ℕ → List RoomUser → String × String
user_at n [] = ("", "")
user_at zero (user ∷ users) = (user.npid, user.online_name)
user_at (suc n) (user ∷ users) = user_at n users

-- `_to_snapshot_record`, of a room with a rank.
unfoldable pub to_snapshot_record : RoomInfo → ℕ → Instant → RankMatchSnapshotRecord
to_snapshot_record room rank_id observed_at = record {
  room_id = room.room_id;
  rank_id = rank_id;
  user1_npid = (user_at 0 room.users).0;
  user1_online_name = (user_at 0 room.users).1;
  user2_npid = (user_at 1 room.users).0;
  user2_online_name = (user_at 1 room.users).1;
  created_dt = observed_at;
}

-- The records of the rooms; a room without a rank raises, as `none`.
unfoldable pub to_snapshot_records : List RoomInfo → Instant → Option (List RankMatchSnapshotRecord)
to_snapshot_records [] observed_at = some []
to_snapshot_records (room ∷ rooms) observed_at = elim room.rank_info [
  | none ↦ none
  | some rank ↦ elim (to_snapshot_records rooms observed_at) [
    | none ↦ none
    | some records ↦ some (to_snapshot_record room rank.id observed_at ∷ records)
  ]
]

abbrev pub is_in : List ℕ → RoomInfo → Bool
is_in ids room = any_of (λ id. id == room.room_id) ids

-- `if new_rooms: await …record_snapshot(…)`; what raises is `none`.
unfoldable pub write_new : ℕ → Bool → List RoomInfo → Instant → Tables → Option Tables
unfolding to_snapshot_records
write_new id fault [] observed_at db = some db
write_new id fault (room ∷ rooms) observed_at db =
    elim (to_snapshot_records (room ∷ rooms) observed_at) [
      | none ↦ none
      | some records ↦ if fault then none else some (record_snapshot id records db)
    ]

-- `_record_new_rank_matches`: the previous set of ids and the tables, or `none` if it raises.
unfoldable pub record_new_rank_matches :
    ℕ → Bool → List RoomInfo → Instant → List ℕ × Tables → Option (List ℕ × Tables)
unfolding write_new
record_new_rank_matches id fault rooms observed_at (prev, db) =
    elim (write_new id fault (filter_by (λ room. not (is_in prev room)) rooms) observed_at db) [
      | none ↦ none
      | some db' ↦ some (map (λ room. room.room_id) rooms, db')
    ]

-- The rooms that the previous cycle did not see.
abbrev pub unseen : List ℕ → List RoomInfo → List RoomInfo
unseen prev rooms = filter_by (λ room. not (is_in prev room)) rooms

-- The match in the room has one row, of the room, its first two users and the day of the observation.
abbrev pub HasRow : Table RankMatchSnapshotRow → Instant → RoomInfo → Type 0
HasRow rows at room =
    count (is_row_of room.room_id (user_at 0 room.users).0 (user_at 1 room.users).0 (stat_day at))
      rows
    ≡ 1

to_snapshot_records-HasRow :
    (rows : Table RankMatchSnapshotRow) (rooms : List RoomInfo) (at : Instant)
    (records : List RankMatchSnapshotRecord)
    → to_snapshot_records rooms at ≡ some records
    → All (IsRecordedOnce rows) records
    → All (HasRow rows at) rooms
unfolding to_snapshot_records to_snapshot_record
to_snapshot_records-HasRow rows [] at records e h = tt
to_snapshot_records-HasRow rows (room ∷ rooms) at records e h = elim (Option-cases room.rank_info) [
  | inl unranked ↦ absurd (ground arith)
  | inr (rank, ranked) ↦ elim (Option-cases (to_snapshot_records rooms at)) [
    | inl broken ↦ absurd (ground arith)
    | inr (rest, made) ↦
        let same : records ≡ to_snapshot_record room rank.id at ∷ rest = ground arith in
        let whole = rw same at h in
        (whole.0, to_snapshot_records-HasRow rows rooms at rest made whole.1)
  ]
]

to_snapshot_records-none :
    (rooms : List RoomInfo) (at : Instant)
    → to_snapshot_records rooms at ≡ none
    → any_of (λ room. is_none room.rank_info) rooms ≡ true
unfolding to_snapshot_records any_of
to_snapshot_records-none [] at e = absurd (ground arith)
to_snapshot_records-none (room ∷ rooms) at e = ground (arith, to_snapshot_records-none rooms at)

-- What a write of the rooms leaves: each has its row, the rows before are as they were, and no match
-- has two rows.
abbrev pub IsWritten : Instant → List RoomInfo → Tables → Tables → Type 0
IsWritten at rooms db db' =
    All (HasRow db'.rank_match_snapshots at) rooms
    × All (λ e. lookup e.0 db'.rank_match_snapshots ≡ lookup e.0 db.rank_match_snapshots)
        db.rank_match_snapshots
    × IsUnique db'.rank_match_snapshots

write_new-cases :
    (id : ℕ) (fault : Bool) (rooms : List RoomInfo) (at : Instant) (db : Tables)
    → IsBelow id db.rank_match_snapshots
    → IsUnique db.rank_match_snapshots
    → ((write_new id fault rooms at db ≡ none)
        × ((fault ≡ true) ⊎ (any_of (λ room. is_none room.rank_info) rooms ≡ true)))
      ⊎ ((db' : Tables) × (write_new id fault rooms at db ≡ some db') × IsWritten at rooms db db')
unfolding write_new record_snapshot
write_new-cases id fault [] at db below unique =
    inr (db, refl, (tt, All-mono db.rank_match_snapshots (λ e h. refl) below, unique))
write_new-cases id fault (room ∷ rooms) at db below unique =
    elim (Option-cases (to_snapshot_records (room ∷ rooms) at)) [
      | inl broken ↦ inl (ground arith, inr (to_snapshot_records-none (room ∷ rooms) at broken))
      | inr (records, made) ↦ elim (Bool-cases fault) [
        | inl failed ↦ inl (ground arith, inl failed)
        | inr fine ↦
            let rows = record_snapshots id records db.rank_match_snapshots in
            let (still, once) =
              record_snapshots-once id records db.rank_match_snapshots below unique in
            inr (
              record_snapshot id records db,
              ground arith,
              (
                to_snapshot_records-HasRow rows (room ∷ rooms) at records made once,
                record_snapshots-old id records db.rank_match_snapshots below,
                still,
              ),
            )
      ]
    ]

-- A cycle raises only if the write fails or a room that the previous cycle did not see has no rank.
-- Otherwise the set advances to the rooms observed, each room that the previous cycle did not see has
-- exactly one row of its id, its two players and the day, the rows before are as they were, and no
-- match has two rows, if none had two before and the generated keys are new.
pub record_new_rank_matches-HasRow :
    (id : ℕ) (fault : Bool) (rooms : List RoomInfo) (at : Instant) (prev : List ℕ) (db : Tables)
    → IsBelow id db.rank_match_snapshots
    → IsUnique db.rank_match_snapshots
    → ((record_new_rank_matches id fault rooms at (prev, db) ≡ none)
        × ((fault ≡ true) ⊎ (any_of (λ room. is_none room.rank_info) (unseen prev rooms) ≡ true)))
      ⊎ ((db' : Tables) × (record_new_rank_matches id fault rooms at (prev, db)
            ≡ some (map (λ room. room.room_id) rooms, db'))
          × IsWritten at (unseen prev rooms) db db')
unfolding record_new_rank_matches
record_new_rank_matches-HasRow id fault rooms at prev db below unique =
    elim (write_new-cases id fault (unseen prev rooms) at db below unique) [
      | inl (raised, why) ↦ inl (ground arith, why)
      | inr (db', written, leaves) ↦ inr (db', ground arith, leaves)
    ]
