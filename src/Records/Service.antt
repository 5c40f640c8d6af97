-- ===== src/Records/Service.antt =====
-- records/service.py: capture and the queue. The clock is the argument `now`, and what the save
-- server answers is an argument. A failure that the database raises inside the savepoint of an
-- attempt is `fault`; wherever it arises, the savepoint takes back what the attempt has written. One
-- outside the savepoint, in the claim, in recording the retry or in the commit, is `outside`.
use tag2now_be.Prelude.{
  ℕ, ◌+◌, ◌-◌, Bool, true, false, Option, none, some, List, [], ◌∷◌, Error, err, ok, Tx, pure, gets,
  raise, ◌>>=◌, ◌>>◌, after, leb, if◌then◌else◌,
}
use tag2now_be.Time.{Instant}
use tag2now_be.History.Repository.{find_rank_room}
use tag2now_be.Records.Domain.{PlayerSave, PlayerMatch, compare, side_of, winner}
use tag2now_be.Records.Rows.{Tables, MatchEvent}
use tag2now_be.Records.Repository.{
  latest_of, lock_state, save_state, add_event, claim_event, finish_event, fail_event, fill_side,
  add_match,
}

abbrev pub capture_limit : ℕ
capture_limit = 200

abbrev pub capture_overlap : ℕ
capture_overlap = 16

abbrev add_found : ℕ → Instant → PlayerSave → Option PlayerMatch → Tx Tables (Unit {0})
add_found id now save none = pure tt
add_found id now save (some match) = add_event id save match now

-- `_compare`.
unfoldable pub compare_save : ℕ → Instant → PlayerSave → Tx Tables (Unit {0})
compare_save id now save = do
  before ← lock_state save.npid
  elim before [
    | none ↦ save_state save false
    | some old ↦ if leb save.data_id old.data_id then pure tt else do
      _ ← save_state save (compare old save).merged
      add_found id now save (compare old save).match
  ]

-- The loop of `capture`: an answer that `from_answer` raises on is `none`. The clock is read anew for
-- each save.
unfoldable pub compare_all : ℕ → (ℕ → Instant) → List (Option PlayerSave) → Tables → Tables
unfolding compare_save
compare_all id clock [] db = db
compare_all id clock (none ∷ answers) db = compare_all id clock answers db
compare_all id clock (some save ∷ answers) db =
    compare_all (id + 1) clock answers (after (compare_save id (clock id) save) db)

unfoldable pub capture : (ℕ → ℕ → List (Option PlayerSave)) → ℕ → (ℕ → Instant) → Tables → Tables
unfolding compare_all latest_of
capture read_changed id clock db =
    compare_all id clock (read_changed (latest_of db.save_states - capture_overlap) capture_limit)
      db

-- `_resolve`.
unfoldable pub resolve : ℕ → MatchEvent → Tx Tables (Unit {0})
unfolding side_of winner
resolve id event = do
  room ← gets (λ db. find_rank_room event.npid event.saved_at db.history)
  let side = side_of room event.npid
  elim room [
    | none ↦ add_match id event none side (winner side event.outcome)
    | some there ↦ do
      filled ← fill_side event there side (winner side event.outcome)
      if filled then pure tt else add_match id event (some there) side (winner side event.outcome)
  ]

abbrev raise_fault : Option Error → Tx Tables (Unit {0})
raise_fault none = pure tt
raise_fault (some e) = raise e

-- `_attempt`.
unfoldable pub attempt : ℕ → Option Error → MatchEvent → Instant → Tx Tables (Unit {0})
unfolding resolve finish_event
attempt id fault event now db =
    elim ((resolve id event >> finish_event event.id >> raise_fault fault) db) [
      | ok done ↦ ok done
      | err e ↦ fail_event event e now db
    ]

abbrev process_claimed : ℕ → Option Error → Instant → Option MatchEvent → Tx Tables Bool
process_claimed id fault now none = pure false
process_claimed id fault now (some event) = attempt id fault event now >> pure true

-- A failure outside the savepoint takes back the whole transaction.
unfoldable pub process_next : ℕ → Option Error → Option Error → Instant → Tx Tables Bool
unfolding claim_event attempt
process_next id fault outside now = do
  event ← claim_event now
  busy ← process_claimed id fault now event
  _ ← raise_fault outside
  pure busy

-- `EventConsumer._process` of records/workers.py: what a call raises is logged and answers False.
unfoldable pub process : ℕ → Option Error → Option Error → Instant → Tables → Bool × Tables
unfolding process_next
process id fault outside now db = elim (process_next id fault outside now db) [
  | ok answer ↦ answer
  | err _ ↦ (false, db)
]
