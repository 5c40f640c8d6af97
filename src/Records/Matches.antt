-- ===== src/Records/Matches.antt =====
-- What resolving an event writes: one side of one match, which agrees with the event.
use tag2now_be.Prelude.{
  ℕ, ◌≡◌, ◌∙◌, refl, true, false, none, some, ok, [], ◌∷◌, arith, Table, lookup, insert, find?,
  IsKeyed, count-find_some, All, All-found, Bool-cases, str_eq, eq_iff, inl, inr, Option-cases,
}
use tag2now_be.History.Rows.{RankMatchSnapshotRow, RankRoom}
use tag2now_be.History.Snapshots.{find_rank_room-IsLive}
use tag2now_be.History.Repository.{find_rank_room}
use tag2now_be.Records.Domain.{Side, p1, p2, winner, side_of}
use tag2now_be.Records.Rows.{
  MatchEventRow, MatchRow, MatchEvent, Tables, names, event_id, with_event,
}
use tag2now_be.Records.Comparing.{outcome_of-winner}
use tag2now_be.Records.Invariant.{Fits, player_at, sides}
use tag2now_be.Records.Sides.{
  IsWritten, IsRecordedRoom, IsPlace, match_row-IsWritten, with_event-IsWritten,
}
use tag2now_be.Records.Repository.{
  first_match, nearer, lacks_side, nearest_match, is_taken, match_row, fill_side, add_match,
}
use tag2now_be.Records.Service.{resolve}

first-found :
    (P : ℕ × MatchRow → Type 0) (rows : Table MatchRow) (e : ℕ × MatchRow)
    → All P rows
    → first_match rows ≡ some e
    → P e
first-found P [] e h found = absurd (ground arith)
first-found P (x ∷ rows) e h found = let same : x ≡ e = ground arith in rw (← same) h.0

nearest_match-found :
    (event : MatchEvent) (room : RankRoom) (side won : Side) (rows : Table MatchRow) (k : ℕ)
    (row : MatchRow)
    → IsKeyed rows
    → nearest_match event room side won rows ≡ some (k, row)
    → (lookup k rows ≡ some row) × (lacks_side event room side won row ≡ true)
unfolding nearest_match
nearest_match-found event room side won rows k row keyed e =
    first-found (λ x. (lookup x.0 rows ≡ some x.1) × (lacks_side event room side won x.1 ≡ true)) _
      (k, row) (All-found (nearer event.saved_at) (lacks_side event room side won) rows keyed) e

lacks_side-row :
    (event : MatchEvent) (room : RankRoom) (side won : Side) (row : MatchRow)
    → lacks_side event room side won row ≡ true
    → (event_id side row ≡ none)
      × (row.winner ≡ won)
      × (row.room_snapshot_id ≡ some room.room_snapshot_id)
unfolding lacks_side
lacks_side-row event room side won row h = (ground arith, ground arith, ground arith)

-- An event that no side holds does not break the columns' uniqueness.
is_taken-none :
    (side : Side) (id : ℕ) (rows : Table MatchRow)
    → sides id rows ≡ 0
    → is_taken side id rows ≡ false
is_taken-none p1 id rows none_hold =
    elim (Option-cases (find? (λ r. names r.p1_event_id id) rows)) [
      | inl e ↦ ground arith
      | inr ((k, row), e) ↦
          absurd (ground (arith, count-find_some (λ r. names r.p1_event_id id) rows k row e))
    ]
is_taken-none p2 id rows none_hold =
    elim (Option-cases (find? (λ r. names r.p2_event_id id) rows)) [
      | inl e ↦ ground arith
      | inr ((k, row), e) ↦
          absurd (ground (arith, count-find_some (λ r. names r.p2_event_id id) rows k row e))
    ]

-- The room that is found is a recorded one, and the event's player is on the side that is taken.
find_rank_room-IsPlace :
    (event : MatchEvent) (db : Tables) (room : RankRoom)
    → IsKeyed db.history.rank_match_snapshots
    → find_rank_room event.npid event.saved_at db.history ≡ some room
    → IsPlace db.history.rank_match_snapshots event (some room) (side_of (some room) event.npid)
unfolding side_of
find_rank_room-IsPlace event db room keyed e =
    let (row, (at, first, second), (is_player, opened, seen)) =
      find_rank_room-IsLive event.npid event.saved_at db.history room keyed e in
    let recorded : IsRecordedRoom db.history.rank_match_snapshots room = ground arith in
    elim (Bool-cases (str_eq room.user1_npid event.npid)) [
      | inl same ↦ (recorded, rw same ((eq_iff room.user1_npid event.npid).0 same))
      | inr other ↦ (
        recorded,
        rw other (elim is_player [
          | inl is_first ↦ absurd (ground (arith, eq_iff room.user1_npid event.npid))
          | inr is_second ↦ second ∙ is_second
        ]),
      )
    ]

-- A match of the room has the room's players.
seated-player :
    (rooms : Table RankMatchSnapshotRow) (events : Table MatchEventRow) (event : MatchEvent)
    (room : RankRoom) (side : Side) (row : MatchRow)
    → IsPlace rooms event (some room) side
    → row.room_snapshot_id ≡ some room.room_snapshot_id
    → Fits rooms events row
    → player_at side row ≡ some event.npid
seated-player rooms events event room p1 row place same fits =
    ground (arith, fits.seated room.room_snapshot_id same, place.0, place.1)
seated-player rooms events event room p2 row place same fits =
    ground (arith, fits.seated room.room_snapshot_id same, place.0, place.1)

-- An event that no side holds is resolved without an error, onto one side.
pub resolve-IsWritten :
    (id : ℕ) (event : MatchEvent) (db : Tables)
    → IsKeyed db.matches
    → IsKeyed db.history.rank_match_snapshots
    → lookup id db.matches ≡ none
    → sides event.id db.matches ≡ 0
    → (new : Table MatchRow) × (resolve id event db ≡ ok (tt, record db { matches = new }))
      × IsWritten db.history.rank_match_snapshots event db.matches new
unfolding resolve fill_side add_match
resolve-IsWritten id event db keyed rooms_keyed fresh free =
    let rooms = db.history.rank_match_snapshots in
    let room = find_rank_room event.npid event.saved_at db.history in
    let side = side_of room event.npid in
    let won = winner side event.outcome in
    let agrees = outcome_of-winner side event.outcome in
    let unique = is_taken-none side event.id db.matches free in
    elim (Option-cases room) [
      | inl missing ↦ (
        insert id (match_row event none side won) db.matches,
        ground arith,
        match_row-IsWritten rooms id event none side won db.matches keyed fresh agrees
            (rw missing refl),
      )
      | inr (there, e) ↦
          let place : IsPlace rooms event (some there) side =
            rw e (find_rank_room-IsPlace event db there rooms_keyed e) in
          elim (Option-cases (nearest_match event there side won db.matches)) [
            | inl no_match ↦ (
              insert id (match_row event (some there) side won) db.matches,
              ground arith,
              match_row-IsWritten rooms id event (some there) side won db.matches keyed fresh agrees
                  place,
            )
            | inr ((k, row), found) ↦
                let (at, lacks) =
                  nearest_match-found event there side won db.matches k row keyed found in
                let (open_side, same_winner, same_room) =
                  lacks_side-row event there side won row lacks in
                (
                  insert k (with_event side event.id row) db.matches,
                  ground arith,
                  with_event-IsWritten rooms k event side row db.matches keyed at open_side
                      (rw same_winner agrees)
                      (λ events fits.
                        seated-player rooms events event there side row place same_room fits),
                )
          ]
    ]
