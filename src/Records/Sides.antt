-- ===== src/Records/Sides.antt =====
-- What writing an event on one side of a match keeps.
use tag2now_be.Prelude.{
  ℕ, ◌+◌, ◌≡◌, refl, ap, Option, none, some, arith, Table, lookup, insert, is_some, IsKeyed,
  insert-IsKeyed, lookup-insert, count-insert, count-insert_new, ◌==◌, to_ℕ, inl, inr, Bool-cases,
}
use tag2now_be.History.Rows.{RankMatchSnapshotRow, RankRoom}
use tag2now_be.Records.Domain.{Side, p1, p2, outcome_of}
use tag2now_be.Records.Rows.{MatchEventRow, MatchRow, MatchEvent, names, event_id, with_event}
use tag2now_be.Records.Invariant.{Fits, told_at, player_at, players_of, sides}
use tag2now_be.Records.Repository.{unseen_match, match_row}

-- What writing one side of a match for the event adds to the matches.
pub record IsWritten (rooms : Table RankMatchSnapshotRow) (event : MatchEvent)
    (old new : Table MatchRow) : Type 0 where
  pub keyed : IsKeyed new
  pub added : (k : ℕ) → sides k new ≡ sides k old + to_ℕ (event.id == k)
  pub fits :
      (events : Table MatchEventRow)
      → told_at (lookup event.id events) ≡ some (some event.npid, event.outcome)
      → ((k : ℕ) (m : MatchRow) → lookup k old ≡ some m → Fits rooms events m)
      → (k : ℕ) (m : MatchRow) → lookup k new ≡ some m
      → Fits rooms events m

module _ (rooms : Table RankMatchSnapshotRow) (events : Table MatchEventRow) (id : ℕ)
    (row : MatchRow)
    (shown : (s : Side) (k : ℕ)
      → event_id s row ≡ some k
      → told_at (lookup k events) ≡ some (player_at s row, outcome_of s row.winner)) where
  with_event-shown :
      (side s : Side) (k : ℕ)
      → told_at (lookup id events) ≡ some (player_at side row, outcome_of side row.winner)
      → event_id s (with_event side id row) ≡ some k
      → told_at (lookup k events)
        ≡ some (player_at s (with_event side id row), outcome_of s (with_event side id row).winner)
  with_event-shown p1 p1 k o e = let same : id ≡ k = ground arith in rw (← same) o
  with_event-shown p1 p2 k o e = shown p2 k e
  with_event-shown p2 p1 k o e = shown p1 k e
  with_event-shown p2 p2 k o e = let same : id ≡ k = ground arith in rw (← same) o

  with_event-Fits :
      (side : Side)
      → told_at (lookup id events) ≡ some (player_at side row, outcome_of side row.winner)
      → ((r : ℕ)
          → row.room_snapshot_id ≡ some r
          → players_of (lookup r rooms) ≡ some (row.p1_npid, row.p2_npid))
      → is_some row.room_snapshot_id ≡ is_some row.p2_npid
      → Fits rooms events (with_event side id row)
  with_event-Fits p1 o seated roomed = record {
    shown = λ s k. with_event-shown p1 s k o;
    seated = seated;
    seen = refl;
    roomed = roomed;
  }
  with_event-Fits p2 o seated roomed = record {
    shown = λ s k. with_event-shown p2 s k o;
    seated = seated;
    seen = ground arith;
    roomed = roomed;
  }

unseen_match-shown :
    (event : MatchEvent) (room : Option RankRoom) (won s : Side)
    → event_id s (unseen_match event room won) ≡ none
unseen_match-shown event none won p1 = refl
unseen_match-shown event none won p2 = refl
unseen_match-shown event (some room) won p1 = refl
unseen_match-shown event (some room) won p2 = refl

unseen_match-winner :
    (event : MatchEvent) (room : Option RankRoom) (won : Side)
    → (unseen_match event room won).winner ≡ won
unseen_match-winner event none won = refl
unseen_match-winner event (some room) won = refl

unseen_match-roomed :
    (event : MatchEvent) (room : Option RankRoom) (won : Side)
    → is_some (unseen_match event room won).room_snapshot_id
      ≡ is_some (unseen_match event room won).p2_npid
unseen_match-roomed event none won = refl
unseen_match-roomed event (some room) won = refl

-- The room is a recorded one with its players.
abbrev pub IsRecordedRoom : Table RankMatchSnapshotRow → RankRoom → Type 0
IsRecordedRoom rooms room =
    players_of (lookup room.room_snapshot_id rooms) ≡ some (room.user1_npid, some room.user2_npid)

abbrev pub IsPlace : Table RankMatchSnapshotRow → MatchEvent → Option RankRoom → Side → Type 0
IsPlace rooms event none side = side ≡ p1
IsPlace rooms event (some room) side =
    IsRecordedRoom rooms room
    × (elim side [ p1 ↦ room.user1_npid | p2 ↦ room.user2_npid ] ≡ event.npid)

unseen_match-player :
    (rooms : Table RankMatchSnapshotRow) (event : MatchEvent) (room : Option RankRoom)
    (side won : Side)
    → IsPlace rooms event room side
    → player_at side (unseen_match event room won) ≡ some event.npid
unseen_match-player rooms event none side won h = rw h refl
unseen_match-player rooms event (some room) p1 won h = ap some h.1
unseen_match-player rooms event (some room) p2 won h = ap some h.1

unseen_match-seated :
    (rooms : Table RankMatchSnapshotRow) (event : MatchEvent) (room : Option RankRoom)
    (side won : Side) (r : ℕ)
    → IsPlace rooms event room side
    → (unseen_match event room won).room_snapshot_id ≡ some r
    → players_of (lookup r rooms)
      ≡ some ((unseen_match event room won).p1_npid, (unseen_match event room won).p2_npid)
unseen_match-seated rooms event none side won r h e = absurd (ground arith)
unseen_match-seated rooms event (some room) side won r h e =
    let same : room.room_snapshot_id ≡ r = ground arith in rw (← same) h.0

match_row-sides :
    (event : MatchEvent) (room : Option RankRoom) (side won : Side) (k : ℕ)
    → to_ℕ (names (match_row event room side won).p1_event_id k)
        + to_ℕ (names (match_row event room side won).p2_event_id k)
      ≡ to_ℕ (event.id == k)
match_row-sides event none p1 won k = ground arith
match_row-sides event none p2 won k = ground arith
match_row-sides event (some room) p1 won k = ground arith
match_row-sides event (some room) p2 won k = ground arith

-- A new match for the event.
pub match_row-IsWritten :
    (rooms : Table RankMatchSnapshotRow) (id : ℕ) (event : MatchEvent) (room : Option RankRoom)
    (side won : Side) (old : Table MatchRow)
    → IsKeyed old
    → lookup id old ≡ none
    → outcome_of side won ≡ event.outcome
    → IsPlace rooms event room side
    → IsWritten rooms event old (insert id (match_row event room side won) old)
match_row-IsWritten rooms id event room side won old keyed fresh agrees place =
    let row = match_row event room side won in
    let bare = unseen_match event room won in
    record {
      keyed = insert-IsKeyed id row old keyed;
      added = λ k. omega (
        arith,
        count-insert_new (λ r. names r.p1_event_id k) id row old fresh,
        count-insert_new (λ r. names r.p2_event_id k) id row old fresh,
        match_row-sides event room side won k,
      );
      fits = λ events o fits k m at. elim (Bool-cases (id == k)) [
        | inl same ↦
            let written : row ≡ m = ground (arith, lookup-insert id k row old) in
            rw (← written) (
              with_event-Fits rooms events event.id bare
                (λ s j e. absurd (ground (arith, unseen_match-shown event room won s))) side
                (rw
                  (
                    unseen_match-winner event room won,
                    agrees,
                    unseen_match-player rooms event room side won place,
                  )
                  o)
                (λ r e. unseen_match-seated rooms event room side won r place e)
                (unseen_match-roomed event room won))
        | inr other ↦ fits k m (ground (arith, lookup-insert id k row old))
      ];
    }

-- The side that a match lacks, filled.
with_event-sides :
    (side : Side) (id k : ℕ) (row : MatchRow)
    → event_id side row ≡ none
    → to_ℕ (names (with_event side id row).p1_event_id k)
        + to_ℕ (names (with_event side id row).p2_event_id k)
      ≡ to_ℕ (names row.p1_event_id k) + to_ℕ (names row.p2_event_id k) + to_ℕ (id == k)
with_event-sides p1 id k row e = ground arith
with_event-sides p2 id k row e = ground arith

pub with_event-IsWritten :
    (rooms : Table RankMatchSnapshotRow) (k0 : ℕ) (event : MatchEvent) (side : Side)
    (row : MatchRow) (old : Table MatchRow)
    → IsKeyed old
    → lookup k0 old ≡ some row
    → event_id side row ≡ none
    → outcome_of side row.winner ≡ event.outcome
    → ((events : Table MatchEventRow)
        → Fits rooms events row
        → player_at side row ≡ some event.npid)
    → IsWritten rooms event old (insert k0 (with_event side event.id row) old)
with_event-IsWritten rooms k0 event side row old keyed found lacks agrees player =
    let new = with_event side event.id row in
    record {
      keyed = insert-IsKeyed k0 new old keyed;
      added = λ k. omega (
        arith,
        count-insert (λ r. names r.p1_event_id k) k0 row new old found,
        count-insert (λ r. names r.p2_event_id k) k0 row new old found,
        with_event-sides side event.id k row lacks,
      );
      fits = λ events o fits k m at. elim (Bool-cases (k0 == k)) [
        | inl same ↦
            let written : new ≡ m = ground (arith, lookup-insert k0 k new old) in
            let before = fits k0 row found in
            rw (← written) (
              with_event-Fits rooms events event.id row before.shown side
                (rw (agrees, player events before) o) before.seated before.roomed)
        | inr other ↦ fits k m (ground (arith, lookup-insert k0 k new old))
      ];
    }
