-- ===== src/Records/Queue.antt =====
-- The consumer of records/workers.py working through the queue: `_process` until it answers False. The
-- n-th call has its generated key, its failures and its time from the arguments.
use tag2now_be.Prelude.{
  insert-IsKeyed, ℕ, zero, suc, ◌+◌, ◌-◌, ◌≡◌, ◌<◌, refl, Bool, true, false, none, some, ok, [],
  ◌∷◌, Error, arith, Table, lookup, insert, select, sort_by, count, count_of, count_of-sort_by,
  Option, if◌then◌else◌, IsKeyed, ◌⊎◌, inl, inr, Option-cases, Result-cases,
}
use tag2now_be.Time.{Instant}
use tag2now_be.Records.Rows.{MatchEventRow, MatchEvent, Tables, pending, is_pending}
use tag2now_be.Records.Repository.{
  max_attempts, first_event, lower_id, is_due, claim_event, update_event, finished, finish_event,
  failed, fail_event, fill_side, add_match,
}
use tag2now_be.Records.Service.{resolve, attempt, process_next, process}
use tag2now_be.Records.Attempts.{claim_event-found}

-- The attempts that an event has left, counting the one after which it is dead.
abbrev pub attempts_left : MatchEventRow → ℕ
attempts_left row = if is_pending row.status then suc (max_attempts - 1 - row.attempts) else 0

unfoldable pub work : Table MatchEventRow → ℕ
work [] = 0
work ((_, row) ∷ rows) = attempts_left row + work rows

unfoldable pub drain :
    (ℕ → ℕ)
    → (ℕ → Option Error)
    → (ℕ → Option Error)
    → (ℕ → Instant)
    → (fuel n : ℕ) → Tables
    → Option (ℕ × Tables)
unfolding process
drain ids faults outside clock zero n db = none
drain ids faults outside clock (suc fuel) n db =
    let (busy, db') = process (ids n) (faults n) (outside n) (clock n) db in
    elim busy [ true ↦ drain ids faults outside clock fuel (n + 1) db' | false ↦ some (n, db') ]

work-insert :
    (k : ℕ) (old v : MatchEventRow) (rows : Table MatchEventRow)
    → lookup k rows ≡ some old
    → work (insert k v rows) + attempts_left old ≡ work rows + attempts_left v
unfolding work insert
work-insert k old v [] e = ground arith
work-insert k old v (x ∷ rows) e = ground (arith, work-insert k old v rows)

resolve-events :
    (id : ℕ) (event : MatchEvent) (db db' : Tables) (out : Unit {0})
    → resolve id event db ≡ ok (out, db')
    → db'.match_events ≡ db.match_events
unfolding resolve fill_side add_match
resolve-events id event db db' out e = ground arith

failed-attempts_left :
    (row : MatchEventRow) (error : Error) (now : Instant)
    → row.status ≡ pending
    → attempts_left (failed (row.attempts + 1) error now row) < attempts_left row
unfolding failed
failed-attempts_left row error now h = ground arith

update-work :
    (f : MatchEventRow → MatchEventRow) (k : ℕ) (row : MatchEventRow) (rows : Table MatchEventRow)
    → lookup k rows ≡ some row
    → attempts_left (f row) < attempts_left row
    → work (update_event f k rows) < work rows
unfolding update_event
update-work f k row rows at h = ground (arith, work-insert k row (f row) rows at)

update-IsKeyed :
    (f : MatchEventRow → MatchEventRow) (k : ℕ) (rows : Table MatchEventRow)
    → IsKeyed rows
    → IsKeyed (update_event f k rows)
unfolding update_event
update-IsKeyed f k rows h = elim (Option-cases (lookup k rows)) [
  | inl missing ↦ let kept : update_event f k rows ≡ rows = ground arith in rw kept h
  | inr (row, found) ↦
      let written : update_event f k rows ≡ insert k (f row) rows = ground arith in
      rw written (insert-IsKeyed k (f row) rows h)
]

abbrev with_failure : MatchEvent → Error → Instant → Tables → Tables
with_failure event e now db = record db {
  match_events = update_event (failed (event.attempts + 1) e now) event.id db.match_events;
}

-- An attempt takes one of those that the event has left.
record IsProgress (db db' : Tables) : Type 0 where
  keyed : IsKeyed db'.match_events
  less : work db'.match_events < work db.match_events

module _ (id : ℕ) (event : MatchEvent) (now : Instant) (row : MatchEventRow) (db : Tables)
    (at : lookup event.id db.match_events ≡ some row) (waits : row.status ≡ pending)
    (same : event.attempts ≡ row.attempts) (keyed : IsKeyed db.match_events) where
  with_failure-IsProgress : (e : Error) → IsProgress db (with_failure event e now db)
  with_failure-IsProgress e = record {
    keyed = update-IsKeyed (failed (event.attempts + 1) e now) event.id db.match_events keyed;
    less = rw same (
        update-work (failed (row.attempts + 1) e now) event.id row db.match_events at
          (failed-attempts_left row e now waits));
  }

  attempt-IsProgress :
      (fault : Option Error)
      → (db' : Tables) × (attempt id fault event now db ≡ ok (tt, db')) × IsProgress db db'
  unfolding attempt finish_event fail_event
  attempt-IsProgress fault = elim (Result-cases (resolve id event db)) [
    | inl ((u, db1), fine) ↦
        let kept = resolve-events id event db db1 u fine in
        elim (Option-cases fault) [
          | inl no_fault ↦ (
            record db1 { match_events = update_event finished event.id db1.match_events },
            ground arith,
            rw kept (record {
              keyed = update-IsKeyed finished event.id db.match_events keyed;
              less = update-work finished event.id row db.match_events at (ground arith);
            }),
          )
          | inr (e, there) ↦ (with_failure event e now db, ground arith, with_failure-IsProgress e)
        ]
    | inr (e, broken) ↦ (with_failure event e now db, ground arith, with_failure-IsProgress e)
  ]

count_of-selected :
    (p : MatchEventRow → Bool) (rows : Table MatchEventRow)
    → count_of (λ _. true) (select (λ _. p) rows) ≡ count p rows
unfolding count_of select count
count_of-selected p [] = refl
count_of-selected p ((k, row) ∷ rows) = ground (arith, count_of-selected p rows)

first_event-empty :
    (rows : Table MatchEventRow) → first_event rows ≡ none → count_of (λ _. true) rows ≡ 0
unfolding count_of
first_event-empty [] e = refl
first_event-empty (x ∷ rows) e = absurd (ground arith)

first_event-none :
    (now : Instant) (rows : Table MatchEventRow)
    → first_event (sort_by lower_id (select (λ _. is_due now) rows)) ≡ none
    → count (is_due now) rows ≡ 0
first_event-none now rows e = omega (
  arith,
  count_of-selected (is_due now) rows,
  count_of-sort_by (λ _. true) lower_id (select (λ _. is_due now) rows),
  first_event-empty (sort_by lower_id (select (λ _. is_due now) rows)) e,
)

-- A call answers False and changes nothing when no event is due or it fails outside the savepoint, and
-- otherwise takes one of the attempts that are left.
process-cases :
    (id : ℕ) (fault outside : Option Error) (now : Instant) (db : Tables)
    → IsKeyed db.match_events
    → ((process id fault outside now db ≡ (false, db))
        × ((count (is_due now) db.match_events ≡ 0) ⊎ ((e : Error) × (outside ≡ some e))))
      ⊎ ((db' : Tables) × (process id fault outside now db ≡ (true, db')) × IsProgress db db')
unfolding process process_next claim_event
process-cases id fault outside now db keyed = elim (Option-cases outside) [
  | inr (e, broken) ↦ inl (ground arith, inr (e, broken))
  | inl fine ↦
      elim (Option-cases
        (first_event (sort_by lower_id (select (λ _. is_due now) db.match_events)))) [
          | inl idle ↦ inl (ground arith, inl (first_event-none now db.match_events idle))
          | inr (event, claimed) ↦
              let (row, same, at, due) = claim_event-found now db db event keyed (ground arith) in
              let (db', written, progress) =
                attempt-IsProgress id event now row db at (ground arith) (ground arith) keyed
                  fault in
              inr (db', ground arith, progress)
        ]
]

-- With more fuel than there are attempts left, the consumer stops: after a call before which no event
-- was due, or one that failed outside its savepoint, the failure of an attempt never stopping it.
pub drain-idle :
    (ids : ℕ → ℕ) (faults outside : ℕ → Option Error) (clock : ℕ → Instant) (fuel n : ℕ)
    (db : Tables)
    → IsKeyed db.match_events
    → work db.match_events < fuel
    → (m : ℕ) × (db' : Tables) × (drain ids faults outside clock fuel n db ≡ some (m, db'))
      × ((count (is_due (clock m)) db'.match_events ≡ 0) ⊎ ((e : Error) × (outside m ≡ some e)))
unfolding drain
drain-idle ids faults outside clock zero n db keyed h = absurd (ground arith)
drain-idle ids faults outside clock (suc fuel) n db keyed h =
    elim (process-cases (ids n) (faults n) (outside n) (clock n) db keyed) [
      | inl (answer, why) ↦ (n, db, ground arith, why)
      | inr (db1, answer, progress) ↦
          let (m, db', done_so, stopped) =
            drain-idle ids faults outside clock fuel (n + 1) db1 progress.keyed
              (ground (arith, progress.less)) in
          (m, db', ground arith, stopped)
    ]
