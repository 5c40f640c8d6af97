-- ===== src/History/Recording.antt =====
-- What recording rank matches keeps of the rows that are there, and what it adds.
use tag2now_be.Prelude.{
  ℕ, ◌+◌, ◌<◌, ◌≡◌, refl, Bool, true, none, List, [], ◌∷◌, arith, Table, lookup, insert, find?,
  find-insert_new, is_some, eq_iff, All, All-mono, lookup-insert, ◌∙◌, Bool-cases, Option-cases,
  inl, inr,
}
use tag2now_be.History.Rows.{RankMatchSnapshotRow, Tables, RankMatchSnapshotRecord, same_match}
use tag2now_be.History.Repository.{snapshot_row, insert_snapshot, record_snapshots, record_snapshot}

-- The keys of the rows are below the next key that is generated.
abbrev pub IsBelow : ℕ → Table RankMatchSnapshotRow → Type 0
IsBelow id rows = All (λ e. e.0 < id) rows

pub IsBelow-lookup :
    (id : ℕ) (rows : Table RankMatchSnapshotRow) → IsBelow id rows → lookup id rows ≡ none
IsBelow-lookup id [] h = refl
IsBelow-lookup id ((k, v) ∷ rows) h = ground (arith, h.0, IsBelow-lookup id rows h.1)

IsBelow-insert :
    (id : ℕ) (row : RankMatchSnapshotRow) (rows : Table RankMatchSnapshotRow)
    → IsBelow id rows
    → IsBelow (id + 1) (insert id row rows)
unfolding insert
IsBelow-insert id row [] h = (omega arith, tt)
IsBelow-insert id row ((k, v) ∷ rows) h = ground (arith, h.0, IsBelow-insert id row rows h.1)

IsBelow-suc : (id : ℕ) (rows : Table RankMatchSnapshotRow) → IsBelow id rows → IsBelow (id + 1) rows
IsBelow-suc id rows h = All-mono rows (λ e k. omega arith) h

find-kept :
    (p : RankMatchSnapshotRow → Bool) (id : ℕ) (row : RankMatchSnapshotRow)
    (rows : Table RankMatchSnapshotRow)
    → lookup id rows ≡ none
    → is_some (find? p rows) ≡ true
    → is_some (find? p (insert id row rows)) ≡ true
unfolding find? insert
find-kept p id row [] fresh h = ground arith
find-kept p id row ((k, v) ∷ rows) fresh h = ground (arith, find-kept p id row rows)

same_match_self : (row : RankMatchSnapshotRow) → same_match row row ≡ true
same_match_self row =
    ground (arith, eq_iff row.user1_npid row.user1_npid, eq_iff row.user2_npid row.user2_npid)

pub insert_snapshot-IsBelow :
    (id : ℕ) (row : RankMatchSnapshotRow) (rows : Table RankMatchSnapshotRow)
    → IsBelow id rows
    → IsBelow (id + 1) (insert_snapshot id row rows)
insert_snapshot-IsBelow id row rows h = elim (Bool-cases (is_some (find? (same_match row) rows))) [
  | inl there ↦ rw there (IsBelow-suc id rows h)
  | inr fresh ↦ rw fresh (IsBelow-insert id row rows h)
]

-- A match that is in the table stays there, and one that is recorded is there.
insert_snapshot-kept :
    (p : RankMatchSnapshotRow → Bool) (id : ℕ) (row : RankMatchSnapshotRow)
    (rows : Table RankMatchSnapshotRow)
    → IsBelow id rows
    → is_some (find? p rows) ≡ true
    → is_some (find? p (insert_snapshot id row rows)) ≡ true
insert_snapshot-kept p id row rows h there =
    ground (arith, find-kept p id row rows (IsBelow-lookup id rows h) there)

insert_snapshot-there :
    (id : ℕ) (row : RankMatchSnapshotRow) (rows : Table RankMatchSnapshotRow)
    → IsBelow id rows
    → is_some (find? (same_match row) (insert_snapshot id row rows)) ≡ true
insert_snapshot-there id row rows h = elim (Option-cases (find? (same_match row) rows)) [
  | inl fresh ↦ ground (
    arith,
    find-insert_new (same_match row) id row rows fresh (IsBelow-lookup id rows h)
        (same_match_self row),
  )
  | inr (e, there) ↦ ground arith
]

pub record_snapshots-kept :
    (p : RankMatchSnapshotRow → Bool) (id : ℕ) (rooms : List RankMatchSnapshotRecord)
    (rows : Table RankMatchSnapshotRow)
    → IsBelow id rows
    → is_some (find? p rows) ≡ true
    → is_some (find? p (record_snapshots id rooms rows)) ≡ true
unfolding record_snapshots
record_snapshots-kept p id [] rows h there = there
record_snapshots-kept p id (room ∷ rooms) rows h there =
    record_snapshots-kept p (id + 1) rooms (insert_snapshot id (snapshot_row room) rows)
      (insert_snapshot-IsBelow id (snapshot_row room) rows h)
      (insert_snapshot-kept p id (snapshot_row room) rows h there)

abbrev pub IsRecorded : Table RankMatchSnapshotRow → RankMatchSnapshotRecord → Type 0
IsRecorded rows room = is_some (find? (same_match (snapshot_row room)) rows) ≡ true

pub record_snapshots-IsRecorded :
    (id : ℕ) (rooms : List RankMatchSnapshotRecord) (rows : Table RankMatchSnapshotRow)
    → IsBelow id rows
    → All (IsRecorded (record_snapshots id rooms rows)) rooms
unfolding record_snapshots
record_snapshots-IsRecorded id [] rows h = tt
record_snapshots-IsRecorded id (room ∷ rooms) rows h =
    let next = insert_snapshot id (snapshot_row room) rows in
    let below = insert_snapshot-IsBelow id (snapshot_row room) rows h in
    (
      record_snapshots-kept (same_match (snapshot_row room)) (id + 1) rooms next below
          (insert_snapshot-there id (snapshot_row room) rows h),
      record_snapshots-IsRecorded (id + 1) rooms next below,
    )

recorded-same :
    (id : ℕ) (rooms : List RankMatchSnapshotRecord) (rows : Table RankMatchSnapshotRow)
    → All (IsRecorded rows) rooms
    → record_snapshots id rooms rows ≡ rows
unfolding record_snapshots
recorded-same id [] rows h = refl
recorded-same id (room ∷ rooms) rows h = rw h.0 (recorded-same (id + 1) rooms rows h.1)

-- Recording the same matches again, as the first cycle after a restart does, changes nothing, under
-- whatever keys.
pub record_snapshot-again :
    (id id' : ℕ) (rooms : List RankMatchSnapshotRecord) (db : Tables)
    → IsBelow id db.rank_match_snapshots
    → record_snapshot id' rooms (record_snapshot id rooms db) ≡ record_snapshot id rooms db
unfolding record_snapshot
record_snapshot-again id id' rooms db h = ground (
  arith,
  recorded-same id' rooms (record_snapshots id rooms db.rank_match_snapshots)
      (record_snapshots-IsRecorded id rooms db.rank_match_snapshots h),
)

-- Recording matches leaves the rows that are there as they are.
insert_snapshot-lookup :
    (k id : ℕ) (row : RankMatchSnapshotRow) (rows : Table RankMatchSnapshotRow)
    → k < id
    → lookup k (insert_snapshot id row rows) ≡ lookup k rows
insert_snapshot-lookup k id row rows h = ground (arith, lookup-insert id k row rows)

record_snapshots-lookup :
    (k id : ℕ) (rooms : List RankMatchSnapshotRecord) (rows : Table RankMatchSnapshotRow)
    → k < id
    → lookup k (record_snapshots id rooms rows) ≡ lookup k rows
unfolding record_snapshots
record_snapshots-lookup k id [] rows h = refl
record_snapshots-lookup k id (room ∷ rooms) rows h =
    record_snapshots-lookup k (id + 1) rooms (insert_snapshot id (snapshot_row room) rows)
      (omega arith)
    ∙ insert_snapshot-lookup k id (snapshot_row room) rows h

pub record_snapshots-old :
    (id : ℕ) (rooms : List RankMatchSnapshotRecord) (rows : Table RankMatchSnapshotRow)
    → IsBelow id rows
    → All (λ e. lookup e.0 (record_snapshots id rooms rows) ≡ lookup e.0 rows) rows
record_snapshots-old id rooms rows h =
    All-mono rows (λ e below. record_snapshots-lookup e.0 id rooms rows below) h
