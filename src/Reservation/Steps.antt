-- ===== src/Reservation/Steps.antt =====
-- Each use case of reservation/service.py that writes reservations or seats keeps the invariant.
use tag2now_be.Prelude.{
  ℕ, String, true, ◌≡◌, none, List, ok, arith, lookup, Result-cases, Option-cases, inl, inr,
}
use tag2now_be.Time.{Instant}
use tag2now_be.Idempotency.Store.{Session}
use tag2now_be.Idempotency.Once.{run_once-tables}
use tag2now_be.Reservation.Domain.{start_at_from}
use tag2now_be.Reservation.Rows.{Tables, Reservation}
use tag2now_be.Reservation.Statements.{with_participant_count}
use tag2now_be.Reservation.Invariant.{IsConsistent}
use tag2now_be.Reservation.Repository
use tag2now_be.Reservation.Service.{
  CreateRequest, UpdateRequest, changes_of, edited_start, create_reservation, update_reservation,
  join_reservation,
}
use tag2now_be.Reservation.Requests.{
  accepts_create, accepts_update, accepts_create-capacity, accepts_update-capacity,
}
use tag2now_be.Reservation.Joining.{join-IsConsistent}
use tag2now_be.Reservation.Editing.{create-IsConsistent, update-IsConsistent}

module _ (seoul : ℕ) (strip : String → String) where
  -- Joining through the service keeps the tables consistent.
  pub join_reservation-IsConsistent :
      (id : ℕ) (at : Instant) (reservation_id : ℕ) (subject name : String) (ranks : List String)
      (now : Instant) (db db' : Tables) (out : Reservation)
      → IsConsistent db
      → lookup id db.participants ≡ none
      → join_reservation seoul strip id at reservation_id subject name ranks now db ≡ ok (out, db')
      → IsConsistent db'
  unfolding join_reservation
  join_reservation-IsConsistent id at reservation_id subject name ranks now db db' out c fresh e =
      elim (Result-cases (Repository.join id at reservation_id subject name ranks now db)) [
        | inl ((joined, t), done) ↦
            let same : t ≡ db' = ground arith in
            join-IsConsistent id at reservation_id subject name ranks now db db' joined c fresh
              (ground arith)
        | inr (problem, failed) ↦ absurd (ground arith)
      ]

  -- An edit through the service, of a request that passes the field rules, keeps them too: the
  -- conditions are checked as they will stand.
  pub update_reservation-IsConsistent :
      (reservation_id : ℕ) (subject : String) (request : UpdateRequest) (now later : Instant)
      (db db' : Tables) (out : Reservation)
      → IsConsistent db
      → accepts_update request ≡ true
      → update_reservation seoul strip reservation_id subject request now later db ≡ ok (out, db')
      → IsConsistent db'
  unfolding update_reservation Repository.get with_participant_count
  update_reservation-IsConsistent reservation_id subject request now later db db' out c accepted e =
      elim (Option-cases (lookup reservation_id db.reservations)) [
        | inl missing ↦ absurd (ground arith)
        | inr (row, found) ↦ elim (Result-cases (edited_start seoul strip request.start_time now)) [
          | inl (start_at, chosen) ↦
              let changes = changes_of seoul strip request start_at in
              update-IsConsistent reservation_id subject later changes db db' out c
                (λ r at.
                  let same : row ≡ r = ground arith in
                  rw (← same) (
                    accepts_update-capacity request row.capacity accepted
                        (c.rows reservation_id row found).capacity_pos,
                    ground arith,
                  ))
                (ground arith)
          | inr (problem, failed) ↦ absurd (ground arith)
        ]
      ]

  module _ (Json : Type 0) (fingerprint : String → CreateRequest → String)
      (to_json : Reservation → Json) where
    -- Creating through the service, of a request that passes the field rules, keeps them too, also
    -- when the key's stored answer is replayed.
    pub create_reservation-IsConsistent :
        (id : ℕ) (at : Instant) (subject name : String) (request : CreateRequest) (key : String)
        (now : Instant) (s s' : Session Json Tables) (answer : Json)
        → IsConsistent s.1
        → lookup id s.1.reservations ≡ none
        → accepts_create request ≡ true
        → create_reservation seoul strip Json fingerprint to_json id at subject name request key now
            s
          ≡ ok (answer, s')
        → IsConsistent s'.1
    unfolding create_reservation
    create_reservation-IsConsistent id at subject name request key now s s' answer c fresh accepted
          e =
        elim (Result-cases (start_at_from seoul request.start_time now)) [
          | inl (start_at, chosen) ↦
              let write =
                Repository.create id at start_at subject name request.ranks request.match_type
                  request.capacity (strip request.memo) in
              elim (run_once-tables Json fingerprint to_json subject key "reservation.create"
                request write s s' answer (ground arith)) [
                  | inl same ↦ rw same c
                  | inr (out, wrote) ↦
                      create-IsConsistent id at start_at subject name request.ranks
                        request.match_type request.capacity (strip request.memo) s.1 s'.1 out c
                        fresh (accepts_create-capacity request accepted) (ground arith) wrote
                ]
          | inr (problem, failed) ↦ absurd (ground arith)
        ]
