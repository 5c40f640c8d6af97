-- ===== src/Records/Attempts.antt =====
-- What one call of `process_next` does to the event that it claims.
use tag2now_be.Prelude.{
  ℕ, ◌+◌, ◌≡◌, refl, true, none, some, ok, [], ◌∷◌, Error, arith, Table, lookup, select, sort_by,
  IsKeyed, All, All-found, Option, Bool, inl, inr, Option-cases, Result-cases,
}
use tag2now_be.Time.{Instant}
use tag2now_be.Records.Rows.{MatchEventRow, MatchRow, MatchEvent, Tables, pending}
use tag2now_be.Records.Invariant.{IsResolved}
use tag2now_be.Records.Events.{update_event-IsResolved}
use tag2now_be.Records.Sides.{IsWritten}
use tag2now_be.Records.Matches.{resolve-IsWritten}
use tag2now_be.Records.Repository.{
  first_event, lower_id, is_due, claim_event, update_event, finished, finish_event, failed,
  fail_event, to_event,
}
use tag2now_be.Records.Service.{attempt, process_next}

first_event-found :
    (P : ℕ × MatchEventRow → Type 0) (rows : Table MatchEventRow) (event : MatchEvent)
    → All P rows
    → first_event rows ≡ some event
    → (row : MatchEventRow) × (event ≡ to_event event.id row) × P (event.id, row)
first_event-found P [] event h found = absurd (ground arith)
first_event-found P ((id, row) ∷ rows) event h found =
    let same : to_event id row ≡ event = ground arith in rw (← same) (row, refl, h.0)

-- The claimed event is a row that is pending and due.
pub claim_event-found :
    (now : Instant) (db db' : Tables) (event : MatchEvent)
    → IsKeyed db.match_events
    → claim_event now db ≡ ok (some event, db')
    → (row : MatchEventRow) × (event ≡ to_event event.id row)
      × (lookup event.id db.match_events ≡ some row)
      × (is_due now row ≡ true)
unfolding claim_event
claim_event-found now db db' event keyed e =
    let (row, same, found) =
      first_event-found (λ x. (lookup x.0 db.match_events ≡ some x.1) × (is_due now x.1 ≡ true)) _
        event (All-found lower_id (is_due now) db.match_events keyed) (ground arith) in
    (row, same, found.0, found.1)

-- The tables after an attempt that writes `matches`.
unfoldable pub attempted : Option Error → MatchEvent → Instant → Table MatchRow → Tables → Tables
attempted none event now matches db = record db {
  match_events = update_event finished event.id db.match_events;
  matches = matches;
}
attempted (some e) event now matches db = record db {
  match_events = update_event (failed (event.attempts + 1) e now) event.id db.match_events;
}

module _ (id : ℕ) (event : MatchEvent) (row : MatchEventRow) (now : Instant) (db : Tables)
    (at : lookup event.id db.match_events ≡ some row) where
  -- A failure of an attempt leaves the matches and records itself on the event.
  pub fail_event-IsResolved :
      (error : Error)
      → IsResolved db
      → row.status ≡ pending
      → (attempts : ℕ)
      → IsResolved (record db {
        match_events = update_event (failed attempts error now) event.id db.match_events;
      })
  unfolding failed
  fail_event-IsResolved error r waits attempts =
      update_event-IsResolved (failed attempts error now) event.id row db at refl refl refl
        db.matches r r.matches_keyed (λ k. ground (arith, r.placed k)) r.fits

  finish_event-IsResolved :
      (matches : Table MatchRow)
      → IsResolved db
      → row.status ≡ pending
      → row.npid ≡ event.npid
      → row.outcome ≡ event.outcome
      → IsWritten db.history.rank_match_snapshots event db.matches matches
      → IsResolved (record db {
        match_events = update_event finished event.id db.match_events;
        matches = matches;
      })
  finish_event-IsResolved matches r waits its same w =
      update_event-IsResolved finished event.id row db at refl refl refl matches r w.keyed
        (λ k. ground (arith, r.placed k, w.added k)) (w.fits db.match_events (ground arith) r.fits)

  -- An attempt without a failure ends with the event done and on one side of one match; a failure
  -- leaves the matches as they were.
  attempt-IsWritten :
      (fault : Option Error)
      → IsResolved db
      → lookup id db.matches ≡ none
      → row.status ≡ pending
      → (matches : Table MatchRow) × IsWritten db.history.rank_match_snapshots event db.matches
          matches
        × (attempt id fault event now db ≡ ok (tt, attempted fault event now matches db))
  unfolding attempt finish_event fail_event attempted
  attempt-IsWritten fault r fresh waits =
      let (matches, done_so, w) =
        resolve-IsWritten id event db r.matches_keyed r.rooms_keyed fresh
          (ground (arith, r.placed event.id)) in
      (
        matches,
        w,
        elim fault as (λ f. attempt id f event now db ≡ ok (tt, attempted f event now matches db)) [
          | none ↦ ground arith
          | some e ↦ ground arith
        ],
      )

  pub attempt-IsResolved :
      (fault : Option Error) (db' : Tables)
      → IsResolved db
      → lookup id db.matches ≡ none
      → row.status ≡ pending
      → row.npid ≡ event.npid
      → row.outcome ≡ event.outcome
      → attempt id fault event now db ≡ ok (tt, db')
      → IsResolved db'
  unfolding attempted
  attempt-IsResolved fault db' r fresh waits its same e =
      let (matches, w, written) = attempt-IsWritten fault r fresh waits in
      let at : attempted fault event now matches db ≡ db' = ground arith in
      rw (← at) (elim fault as (λ f. IsResolved (attempted f event now matches db)) [
        | none ↦ finish_event-IsResolved matches r waits its same w
        | some problem ↦ fail_event-IsResolved problem r waits (event.attempts + 1)
      ])

-- Any call of `process_next`, whatever fails in it, keeps the tables resolved.
pub process_next-IsResolved :
    (id : ℕ) (fault outside : Option Error) (now : Instant) (db db' : Tables) (busy : Bool)
    → IsResolved db
    → lookup id db.matches ≡ none
    → process_next id fault outside now db ≡ ok (busy, db')
    → IsResolved db'
unfolding process_next claim_event
process_next-IsResolved id fault outside now db db' busy r fresh e =
    elim (Option-cases
      (first_event (sort_by lower_id (select (λ _. is_due now) db.match_events)))) [
        | inl idle ↦ let same : db ≡ db' = ground arith in rw (← same) r
        | inr (event, claimed) ↦
            let (row, same, at, due) =
              claim_event-found now db db event r.events_keyed (ground arith) in
            elim (Result-cases (attempt id fault event now db)) [
              | inl ((u, db2), done_so) ↦
                  let there : db2 ≡ db' = ground arith in
                  rw (← there) (
                    attempt-IsResolved id event row now db at fault db2 r fresh (ground arith)
                      (ground arith) (ground arith) done_so)
              | inr (problem, broken) ↦ absurd (ground arith)
            ]
      ]
