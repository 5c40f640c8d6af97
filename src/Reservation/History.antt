-- ===== src/Reservation/History.antt =====
-- The requests of reservation/router.py as steps of the stored data, in any order. A request that
-- raises is rolled back and is no step. A step is a whole transaction: a history is of requests that
-- do not overlap. `update_reservation` reads the row and checks the conditions before it takes the
-- row's lock, so two overlapping edits are not such a history.
use tag2now_be.Prelude.{ℕ, String, Bool, true, ◌≡◌, none, List, ok, arith, lookup}
use tag2now_be.Time.{Instant}
use tag2now_be.Idempotency.Store.{Session, on_tables}
use tag2now_be.Idempotency.Once.{on_tables-inv}
use tag2now_be.Reservation.Rows.{Tables, Reservation, Comment}
use tag2now_be.Reservation.Invariant.{IsConsistent}
use tag2now_be.Reservation.Comments.{comment_missing}
use tag2now_be.Reservation.Comments
use tag2now_be.Reservation.Service.{
  CreateRequest, UpdateRequest, list_reservations, create_reservation, update_reservation,
  join_reservation, cancel_participation, cancel_reservation, add_comment, delete_comment,
}
use tag2now_be.Reservation.Requests.{accepts_create, accepts_update}
use tag2now_be.Reservation.Leaving.{cancel_participation-IsConsistent}
use tag2now_be.Reservation.Cancelling.{cancel-IsConsistent}
use tag2now_be.Reservation.Listing.{list_upcoming-IsConsistent}
use tag2now_be.Reservation.Steps.{
  join_reservation-IsConsistent, update_reservation-IsConsistent, create_reservation-IsConsistent,
}

-- Writing a comment leaves the reservations and the seats alone.
add_comment-tables :
    (id : ℕ) (at : Instant) (reservation_id : ℕ) (subject name body : String) (db db' : Tables)
    (out : Comment)
    → Comments.add_comment id at reservation_id subject name body db ≡ ok (out, db')
    → record db { comments = db'.comments } ≡ db'
unfolding Comments.add_comment
add_comment-tables id at reservation_id subject name body db db' out e = ground arith

delete_comment-tables :
    (reservation_id comment_id : ℕ) (subject : String) (now : Instant) (admin : Bool)
    (db db' : Tables) (out : Unit {0})
    → Comments.delete_comment reservation_id comment_id subject now admin db ≡ ok (out, db')
    → record db { comments = db'.comments } ≡ db'
unfolding Comments.delete_comment
delete_comment-tables reservation_id comment_id subject now admin db db' out e = ground arith

IsConsistent-comments :
    (db db' : Tables)
    → record db { comments = db'.comments } ≡ db'
    → IsConsistent db
    → IsConsistent db'
IsConsistent-comments db db' same c = rw (← same) (record {
  rows_keyed = c.rows_keyed;
  keyed = c.keyed;
  rows = c.rows;
  no_orphans = c.no_orphans;
})

module _ (seoul : ℕ) (strip : String → String) (Json : Type 0)
    (fingerprint : String → CreateRequest → String) (to_json : Reservation → Json) where
  pub data Step (s s' : Session Json Tables) : Type 0 where
    listing :
        (now : Instant) (out : List Reservation)
        → on_tables Json (list_reservations seoul strip now) s ≡ ok (out, s')
        → Step s s'
    creating :
        (id : ℕ) (at : Instant) (subject name : String) (request : CreateRequest) (key : String)
        (now : Instant) (answer : Json)
        → lookup id s.1.reservations ≡ none
        → accepts_create request ≡ true
        → create_reservation seoul strip Json fingerprint to_json id at subject name request key now
            s
          ≡ ok (answer, s')
        → Step s s'
    updating :
        (reservation_id : ℕ) (subject : String) (request : UpdateRequest) (now later : Instant)
        (out : Reservation)
        → accepts_update request ≡ true
        → on_tables Json (update_reservation seoul strip reservation_id subject request now later) s
          ≡ ok (out, s')
        → Step s s'
    joining :
        (id : ℕ) (at : Instant) (reservation_id : ℕ) (subject name : String) (ranks : List String)
        (now : Instant) (out : Reservation)
        → lookup id s.1.participants ≡ none
        → on_tables Json
            (join_reservation seoul strip id at reservation_id subject name ranks now)
            s
          ≡ ok (out, s')
        → Step s s'
    leaving :
        (reservation_id : ℕ) (subject : String) (now : Instant) (out : Reservation)
        → on_tables Json (cancel_participation seoul strip reservation_id subject now) s
          ≡ ok (out, s')
        → Step s s'
    cancelling :
        (reservation_id : ℕ) (subject : String) (now : Instant) (out : Unit {0})
        → on_tables Json (cancel_reservation seoul strip reservation_id subject now) s
          ≡ ok (out, s')
        → Step s s'
    commenting :
        (id : ℕ) (at : Instant) (reservation_id : ℕ) (subject name body : String) (out : Comment)
        → on_tables Json (add_comment seoul strip id at reservation_id subject name body) s
          ≡ ok (out, s')
        → Step s s'
    uncommenting :
        (reservation_id comment_id : ℕ) (subject : String) (admin : Bool) (now : Instant)
        (out : Unit {0})
        → on_tables Json (delete_comment seoul strip reservation_id comment_id subject admin now) s
          ≡ ok (out, s')
        → Step s s'

  pub data Reach (s : Session Json Tables) : Session Json Tables → Type 0 where
    here : Reach s s
    next : {t u : Session Json Tables} → Reach s t → Step t u → Reach s u

  pub Step-IsConsistent :
      {s s' : Session Json Tables} → Step s s' → IsConsistent s.1 → IsConsistent s'.1
  Step-IsConsistent {s} {s'} (listing now out e) c =
      list_upcoming-IsConsistent seoul now s.1 out s'.1
        (on_tables-inv Json (list_reservations seoul strip now) s s' out e) c
  Step-IsConsistent {s} {s'} (creating id at subject name request key now answer fresh accepted e)
        c =
      create_reservation-IsConsistent seoul strip Json fingerprint to_json id at subject name
        request key now s s' answer c fresh accepted e
  Step-IsConsistent {s} {s'} (updating reservation_id subject request now later out accepted e) c =
      update_reservation-IsConsistent seoul strip reservation_id subject request now later s.1 s'.1
        out c accepted
        (on_tables-inv Json
          (update_reservation seoul strip reservation_id subject request now later) s s' out e)
  Step-IsConsistent {s} {s'} (joining id at reservation_id subject name ranks now out fresh e) c =
      join_reservation-IsConsistent seoul strip id at reservation_id subject name ranks now s.1 s'.1
        out c fresh
        (on_tables-inv Json
          (join_reservation seoul strip id at reservation_id subject name ranks now) s s' out e)
  Step-IsConsistent {s} {s'} (leaving reservation_id subject now out e) c =
      cancel_participation-IsConsistent reservation_id subject now s.1 s'.1 out c (
        on_tables-inv Json (cancel_participation seoul strip reservation_id subject now) s s' out e)
  Step-IsConsistent {s} {s'} (cancelling reservation_id subject now out e) c =
      cancel-IsConsistent reservation_id subject now s.1 s'.1 out c
        (on_tables-inv Json (cancel_reservation seoul strip reservation_id subject now) s s' out e)
  Step-IsConsistent {s} {s'} (commenting id at reservation_id subject name body out e) c =
      IsConsistent-comments s.1 s'.1
        (add_comment-tables id at reservation_id subject name (strip body) s.1 s'.1 out (
          on_tables-inv Json (add_comment seoul strip id at reservation_id subject name body) s s'
            out e))
        c
  Step-IsConsistent {s} {s'} (uncommenting reservation_id comment_id subject admin now out e) c =
      IsConsistent-comments s.1 s'.1
        (delete_comment-tables reservation_id comment_id subject now admin s.1 s'.1 out (
          on_tables-inv Json
            (delete_comment seoul strip reservation_id comment_id subject admin now) s s' out e))
        c

  -- Whatever requests are served, in whatever order, consistent tables stay consistent.
  pub Reach-IsConsistent :
      {s s' : Session Json Tables} → Reach s s' → IsConsistent s.1 → IsConsistent s'.1
  Reach-IsConsistent here c = c
  Reach-IsConsistent (next r step) c = Step-IsConsistent step (Reach-IsConsistent r c)
