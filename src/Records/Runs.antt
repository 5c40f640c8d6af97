-- ===== src/Records/Runs.antt =====
-- Captures and consumers in any order, as steps of the stored tables: each comparison and each call of
-- `process_next` is one transaction and one step; one that raises is rolled back and is no step.
use tag2now_be.Prelude.{
  ℕ, ◌≡◌, refl, false, Bool, none, ok, ◌⊎◌, Error, arith, Option, lookup, inl, inr, Option-cases,
  Bool-cases, leb,
}
use tag2now_be.Prelude.Dict
use tag2now_be.Time.{Instant}
use tag2now_be.Records.Domain.{PlayerSave, PlayerMatch, compare}
use tag2now_be.Records.Rows.{SaveStateRow, Tables}
use tag2now_be.Records.Invariant.{IsResolved}
use tag2now_be.Records.Events.{insert_event-IsResolved}
use tag2now_be.Records.Repository.{to_save, state_row, insert_event, event_row}
use tag2now_be.Records.Service.{compare_save, process_next}
use tag2now_be.Records.Attempts.{process_next-IsResolved}

with_states : Dict.Dict SaveStateRow → Tables → Tables
with_states states db = record db { save_states = states }

with_states-IsResolved :
    (states : Dict.Dict SaveStateRow) (db : Tables)
    → IsResolved db
    → IsResolved (with_states states db)
unfolding with_states
with_states-IsResolved states db r = record {
  events_keyed = r.events_keyed;
  matches_keyed = r.matches_keyed;
  rooms_keyed = r.rooms_keyed;
  once = r.once;
  placed = r.placed;
  fits = r.fits;
}

with_event-IsResolved :
    (id : ℕ) (save : PlayerSave) (match : PlayerMatch) (now : Instant)
    (states : Dict.Dict SaveStateRow) (db : Tables)
    → IsResolved db
    → lookup id db.match_events ≡ none
    → IsResolved (record (with_states states db) {
      match_events = insert_event id (event_row save match now) db.match_events;
    })
unfolding with_states event_row
with_event-IsResolved id save match now states db r fresh =
    insert_event-IsResolved id (event_row save match now) (with_states states db)
      (with_states-IsResolved states db r) fresh refl

-- What comparing a save writes.
compare_save-written :
    (id : ℕ) (now : Instant) (save : PlayerSave) (db db' : Tables) (out : Unit {0})
    → compare_save id now save db ≡ ok (out, db')
    → (db' ≡ db)
      ⊎ ((states : Dict.Dict SaveStateRow) × (db' ≡ with_states states db))
      ⊎ ((states : Dict.Dict SaveStateRow) × (match : PlayerMatch) × (db'
            ≡ record (with_states states db) {
              match_events = insert_event id (event_row save match now) db.match_events;
            }))
unfolding compare_save with_states to_save
compare_save-written id now save db db' out e =
    elim (Option-cases (Dict.lookup save.npid db.save_states)) [
      | inl missing ↦ inr (
          inl (
            Dict.insert save.npid (state_row (Dict.lookup save.npid db.save_states) save false)
                db.save_states,
            ground arith,
          ))
      | inr (row, found) ↦ elim (Bool-cases (leb save.data_id row.data_id)) [
        | inl stale ↦ inl (ground arith)
        | inr newer ↦ elim (Option-cases (compare (to_save save.npid row) save).match) [
          | inl none_found ↦ inr (
              inl (
                Dict.insert save.npid
                    (state_row (Dict.lookup save.npid db.save_states) save
                      (compare (to_save save.npid row) save).merged)
                    db.save_states,
                ground arith,
              ))
          | inr (m, match) ↦ inr (
              inr (
                Dict.insert save.npid
                    (state_row (Dict.lookup save.npid db.save_states) save
                      (compare (to_save save.npid row) save).merged)
                    db.save_states,
                m,
                ground arith,
              ))
        ]
      ]
    ]

pub compare_save-IsResolved :
    (id : ℕ) (now : Instant) (save : PlayerSave) (db db' : Tables) (out : Unit {0})
    → IsResolved db
    → lookup id db.match_events ≡ none
    → compare_save id now save db ≡ ok (out, db')
    → IsResolved db'
compare_save-IsResolved id now save db db' out r fresh e =
    elim (compare_save-written id now save db db' out e) [
      | inl same ↦ rw same r
      | inr (inl (states, written)) ↦ rw written (with_states-IsResolved states db r)
      | inr (inr (states, match, written)) ↦
          rw written (with_event-IsResolved id save match now states db r fresh)
    ]

pub data Step : Tables → Tables → Type 0 where
  comparing :
      (id : ℕ) (now : Instant) (save : PlayerSave) (db db' : Tables)
      → lookup id db.match_events ≡ none
      → compare_save id now save db ≡ ok (tt, db')
      → Step db db'
  processing :
      (id : ℕ) (fault outside : Option Error) (now : Instant) (busy : Bool) (db db' : Tables)
      → lookup id db.matches ≡ none
      → process_next id fault outside now db ≡ ok (busy, db')
      → Step db db'

pub data Reach (db : Tables) : Tables → Type 0 where
  here : Reach db db
  next : (mid db' : Tables) → Reach db mid → Step mid db' → Reach db db'

Step-IsResolved : (db db' : Tables) → IsResolved db → Step db db' → IsResolved db'
Step-IsResolved _ _ r (comparing id now save db db' fresh e) =
    compare_save-IsResolved id now save db db' tt r fresh e
Step-IsResolved _ _ r (processing id fault outside now busy db db' fresh e) =
    process_next-IsResolved id fault outside now db db' busy r fresh e

-- However the transactions of captures and consumers follow one another and whatever fails in them,
-- from tables that are so: no two events are of one save; an event that is resolved stands on exactly
-- one side of one match, any other on none; the event on a side is of that side's player, and the match
-- says of them what that save showed; a match with a room has the room's two players in its order; each
-- match has an event; and it has an opponent exactly when it has a room.
pub records-IsResolved : (db db' : Tables) → IsResolved db → Reach db db' → IsResolved db'
records-IsResolved db db' r here = r
records-IsResolved db db' r (next mid _ reached step) =
    Step-IsResolved mid db' (records-IsResolved db mid r reached) step
