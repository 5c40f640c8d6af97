-- ===== src/Records/Capturing.antt =====
-- Which saves a capture has seen, and capturing the same saves again.
use tag2now_be.Prelude.{
  ℕ, ◌+◌, ◌≡◌, refl, Bool, true, false, none, some, List, [], ◌∷◌, ◌&&◌, ◌||◌, arith, Option, leb,
  str_eq, eq_iff, after, All, inl, inr, Option-cases, Bool-cases,
}
use tag2now_be.Prelude.Dict
use tag2now_be.Time.{Instant}
use tag2now_be.Records.Domain.{PlayerSave, compare}
use tag2now_be.Records.Rows.{SaveStateRow, Tables}
use tag2now_be.Records.Repository.{to_save, state_row}
use tag2now_be.Records.Service.{compare_save, compare_all}

-- The state of the player is of the save, or of a later one.
abbrev pub is_at_least : ℕ → Option SaveStateRow → Bool
is_at_least data_id none = false
is_at_least data_id (some row) = leb data_id row.data_id

abbrev pub has_seen : PlayerSave → Tables → Bool
has_seen save db = is_at_least save.data_id (Dict.lookup save.npid db.save_states)

-- A save that is no later than the one compared last changes nothing.
compare_save-stale :
    (id : ℕ) (now : Instant) (save : PlayerSave) (db : Tables)
    → has_seen save db ≡ true
    → after (compare_save id now save) db ≡ db
unfolding compare_save to_save
compare_save-stale id now save db h = elim (Option-cases (Dict.lookup save.npid db.save_states)) [
  | inl missing ↦ absurd (ground arith)
  | inr (row, found) ↦ ground arith
]

-- What comparing writes to the states.
states_after : Tables → PlayerSave → Bool → Dict.Dict SaveStateRow
states_after db save merged =
    Dict.insert save.npid (state_row (Dict.lookup save.npid db.save_states) save merged)
      db.save_states

compare_save-states :
    (id : ℕ) (now : Instant) (save : PlayerSave) (db : Tables)
    → has_seen save db ≡ false
    → (merged : Bool) × ((after (compare_save id now save) db).save_states
        ≡ states_after db save merged)
unfolding compare_save states_after to_save
compare_save-states id now save db h = elim (Option-cases (Dict.lookup save.npid db.save_states)) [
  | inl missing ↦ (false, ground arith)
  | inr (row, found) ↦ elim (Option-cases (compare (to_save save.npid row) save).match) [
    | inl none_found ↦ ((compare (to_save save.npid row) save).merged, ground arith)
    | inr (m, match) ↦ ((compare (to_save save.npid row) save).merged, ground arith)
  ]
]

-- A state only moves on to later saves, and the compared save's player is at it or later.
compare_save-seen :
    (id : ℕ) (now : Instant) (save other : PlayerSave) (db : Tables)
    → (str_eq save.npid other.npid && leb other.data_id save.data_id || has_seen other db) ≡ true
    → has_seen other (after (compare_save id now save) db) ≡ true
unfolding states_after state_row
compare_save-seen id now save other db h = elim (Bool-cases (has_seen save db)) [
  | inl stale ↦
      rw (compare_save-stale id now save db stale) (ground (arith, eq_iff save.npid other.npid))
  | inr newer ↦
      let (merged, written) = compare_save-states id now save db newer in
      rw written (
        ground (
          arith,
          eq_iff save.npid other.npid,
          Dict.lookup-insert save.npid other.npid
              (state_row (Dict.lookup save.npid db.save_states) save merged) db.save_states,
        ))
]

compare_all-seen :
    (id : ℕ) (clock : ℕ → Instant) (answers : List (Option PlayerSave)) (other : PlayerSave)
    (db : Tables)
    → has_seen other db ≡ true
    → has_seen other (compare_all id clock answers db) ≡ true
unfolding compare_all
compare_all-seen id clock [] other db h = h
compare_all-seen id clock (none ∷ answers) other db h = compare_all-seen id clock answers other db h
compare_all-seen id clock (some save ∷ answers) other db h =
    compare_all-seen (id + 1) clock answers other (after (compare_save id (clock id) save) db)
      (compare_save-seen id (clock id) save other db (ground arith))

-- What holds of each answer that is a save.
abbrev pub IsSeen : Tables → Option PlayerSave → Type 0
IsSeen db none = Unit
IsSeen db (some save) = has_seen save db ≡ true

compare_all-IsSeen :
    (id : ℕ) (clock : ℕ → Instant) (answers : List (Option PlayerSave)) (db : Tables)
    → All (IsSeen (compare_all id clock answers db)) answers
unfolding compare_all
compare_all-IsSeen id clock [] db = tt
compare_all-IsSeen id clock (none ∷ answers) db = (tt, compare_all-IsSeen id clock answers db)
compare_all-IsSeen id clock (some save ∷ answers) db =
    let next = after (compare_save id (clock id) save) db in
    (
      compare_all-seen (id + 1) clock answers save next (
          compare_save-seen id (clock id) save save db
            (ground (arith, eq_iff save.npid save.npid))),
      compare_all-IsSeen (id + 1) clock answers next,
    )

compare_all-stale :
    (id : ℕ) (clock : ℕ → Instant) (answers : List (Option PlayerSave)) (db : Tables)
    → All (IsSeen db) answers
    → compare_all id clock answers db ≡ db
unfolding compare_all
compare_all-stale id clock [] db h = refl
compare_all-stale id clock (none ∷ answers) db h = compare_all-stale id clock answers db h.1
compare_all-stale id clock (some save ∷ answers) db h =
    rw (compare_save-stale id (clock id) save db h.0)
      (compare_all-stale (id + 1) clock answers db h.1)

IsSeen-compare_all :
    (id : ℕ) (clock : ℕ → Instant) (saves answers : List (Option PlayerSave)) (db : Tables)
    → All (IsSeen db) saves
    → All (IsSeen (compare_all id clock answers db)) saves
IsSeen-compare_all id clock [] answers db h = tt
IsSeen-compare_all id clock (none ∷ saves) answers db h =
    (tt, IsSeen-compare_all id clock saves answers db h.1)
IsSeen-compare_all id clock (some save ∷ saves) answers db h = (
  compare_all-seen id clock answers save db h.0,
  IsSeen-compare_all id clock saves answers db h.1,
)

-- Saves that the server answers again, in the overlap of two captures, change nothing, whatever was
-- captured between: no match is queued twice and no state goes back.
pub compare_all-again :
    (id id' id2 : ℕ) (clock clock' clock2 : ℕ → Instant)
    (answers between : List (Option PlayerSave)) (db : Tables)
    → let done_so = compare_all id' clock' between (compare_all id clock answers db) in
      compare_all id2 clock2 answers done_so ≡ done_so
compare_all-again id id' id2 clock clock' clock2 answers between db =
    compare_all-stale id2 clock2 answers _
      (IsSeen-compare_all id' clock' answers between _ (compare_all-IsSeen id clock answers db))
