-- ===== src/Records/Events.antt =====
-- What queueing an event and updating one keep.
use tag2now_be.Prelude.{
  ℕ, ◌≡◌, true, none, some, arith, Table, lookup, insert, find?, is_some, IsKeyed, insert-IsKeyed,
  lookup-insert, count-insert, count-insert_new, count-find_none, eq_iff, ◌==◌, to_ℕ, if◌then◌else◌,
  inl, inr, Option-cases,
}
use tag2now_be.History.Rows.{RankMatchSnapshotRow}
use tag2now_be.Records.Rows.{MatchEventRow, MatchRow, Tables, pending}
use tag2now_be.Records.Invariant.{IsResolved, Fits, is_done, resolved, told_at, sides}
use tag2now_be.Records.Repository.{is_of_save, insert_event, update_event}

-- Events change under a match that fits as long as none loses or changes its outcome.
pub Fits-mono :
    {rooms : Table RankMatchSnapshotRow} {events events' : Table MatchEventRow} {row : MatchRow}
    → ((id : ℕ)
        → is_some (lookup id events) ≡ true
        → told_at (lookup id events') ≡ told_at (lookup id events))
    → Fits rooms events row
    → Fits rooms events' row
Fits-mono h f = record {
  shown = λ side id e. ground (arith, h id, f.shown side id e);
  seated = f.seated;
  seen = f.seen;
  roomed = f.roomed;
}

pub insert_event-IsResolved :
    (id : ℕ) (row : MatchEventRow) (db : Tables)
    → IsResolved db
    → lookup id db.match_events ≡ none
    → row.status ≡ pending
    → IsResolved (record db { match_events = insert_event id row db.match_events })
insert_event-IsResolved id row db r fresh new =
    elim (Option-cases (find? (is_of_save row.npid row.data_id) db.match_events)) [
      | inr (found, e) ↦ rw e r
      | inl e ↦ rw e (record {
        events_keyed = insert-IsKeyed id row db.match_events r.events_keyed;
        matches_keyed = r.matches_keyed;
        rooms_keyed = r.rooms_keyed;
        once = λ npid data_id. ground (
          arith,
          r.once npid data_id,
          count-insert_new (is_of_save npid data_id) id row db.match_events fresh,
          count-find_none (is_of_save row.npid row.data_id) db.match_events e,
          eq_iff row.npid npid,
        );
        placed = λ k. ground (arith, r.placed k, lookup-insert id k row db.match_events);
        fits = λ k m found.
            Fits-mono (λ j h. ground (arith, lookup-insert id j row db.match_events))
              (r.fits k m found);
      })
    ]

module _ (f : MatchEventRow → MatchEventRow) (id : ℕ) (row : MatchEventRow) (db : Tables)
    (found : lookup id db.match_events ≡ some row) (same_npid : (f row).npid ≡ row.npid)
    (same_save : (f row).data_id ≡ row.data_id) (same_outcome : (f row).outcome ≡ row.outcome) where
  update_event-found : update_event f id db.match_events ≡ insert id (f row) db.match_events
  unfolding update_event
  update_event-found = ground arith

  -- An event that is updated, with the matches that agree with its new status.
  pub update_event-IsResolved :
      (rows : Table MatchRow)
      → IsResolved db
      → IsKeyed rows
      → ((k : ℕ)
          → sides k rows ≡ (
              if id == k
              then to_ℕ (is_done (f row).status)
              else resolved (lookup k db.match_events)))
      → ((k : ℕ) (m : MatchRow)
          → lookup k rows ≡ some m
          → Fits db.history.rank_match_snapshots db.match_events m)
      → IsResolved (record db { match_events = update_event f id db.match_events; matches = rows })
  update_event-IsResolved rows r keyed placed fits = rw update_event-found (record {
    events_keyed = insert-IsKeyed id (f row) db.match_events r.events_keyed;
    matches_keyed = keyed;
    rooms_keyed = r.rooms_keyed;
    once = λ npid data_id. ground (
      arith,
      r.once npid data_id,
      count-insert (is_of_save npid data_id) id row (f row) db.match_events found,
    );
    placed = λ k. ground (arith, placed k, lookup-insert id k (f row) db.match_events);
    fits = λ k m at.
        Fits-mono (λ j h. ground (arith, lookup-insert id j (f row) db.match_events)) (fits k m at);
  })
