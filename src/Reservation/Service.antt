-- ===== src/Reservation/Service.antt =====
-- reservation/service.py: each use case runs its repository calls in one transaction. Python's
-- `str.strip` is the argument `strip`; the clock's reading is `now`, and where the code reads the
-- clock twice, `later` is the second reading.
use tag2now_be.Prelude.{
  ℕ, String, Bool, Option, none, some, List, Result, ok, err, Tx, pure, lift, ◌>>=◌, ◌>>◌, get_or,
}
use mathlib.Core.Option
use tag2now_be.Time.{Instant}
use tag2now_be.Idempotency.Store.{Session, run_once}
use tag2now_be.Reservation.Domain.{MatchType, ensure_conditions_valid, start_at_from}
use tag2now_be.Reservation.Rows.{Tables, Reservation, Comment, Changes}
use tag2now_be.Reservation.Repository
use tag2now_be.Reservation.Comments

-- The body of a request to create a reservation; the idempotency digest covers all of it.
pub record CreateRequest : Type 0 where
  pub start_time : ℕ
  pub ranks : List String
  pub match_type : MatchType
  pub capacity : ℕ
  pub memo : String

-- The body of an edit: what is absent stays.
pub record UpdateRequest : Type 0 where
  pub start_time : Option ℕ
  pub ranks : Option (List String)
  pub match_type : Option MatchType
  pub capacity : Option ℕ
  pub memo : Option String

module _ (seoul : ℕ) (strip : String → String) where
  abbrev pub list_reservations : Instant → Tx Tables (List Reservation)
  list_reservations now = Repository.list_upcoming seoul now

  module _ (Json : Type 0) (fingerprint : String → CreateRequest → String)
      (to_json : Reservation → Json) where
    unfoldable pub create_reservation :
        ℕ
        → Instant
        → String
        → String
        → CreateRequest
        → String
        → Instant
        → Tx (Session Json Tables) Json
    create_reservation id at subject display_name request idempotency_key now = do
      lift (ensure_conditions_valid request.match_type request.ranks request.capacity)
      start_at ← lift (start_at_from seoul request.start_time now)
      run_once Json fingerprint to_json subject idempotency_key "reservation.create" request (
          Repository.create id at start_at subject display_name request.ranks request.match_type
            request.capacity (strip request.memo))

  abbrev pub get_reservation : ℕ → Tx Tables Reservation
  get_reservation reservation_id = Repository.get reservation_id

  -- `start_at_from(start_time, now) if start_time is not None else None`.
  abbrev pub edited_start : Option ℕ → Instant → Result (Option Instant)
  edited_start none now = ok none
  edited_start (some start_time) now = elim (start_at_from seoul start_time now) [
    | ok start_at ↦ ok (some start_at)
    | err e ↦ err e
  ]

  abbrev pub changes_of : UpdateRequest → Option Instant → Changes
  changes_of request start_at = record {
    start_at = start_at;
    ranks = request.ranks;
    match_type = request.match_type;
    capacity = request.capacity;
    memo = Option.map strip request.memo;
  }

  unfoldable pub update_reservation :
      ℕ → String → UpdateRequest → Instant → Instant → Tx Tables Reservation
  update_reservation reservation_id subject request now later = do
    current ← Repository.get reservation_id
    lift (
        ensure_conditions_valid (get_or request.match_type current.match_type)
          (get_or request.ranks current.host_ranks) (get_or request.capacity current.capacity))
    start_at ← lift (edited_start request.start_time now)
    Repository.update reservation_id subject later (changes_of request start_at)

  unfoldable pub join_reservation :
      ℕ → Instant → ℕ → String → String → List String → Instant → Tx Tables Reservation
  join_reservation id at reservation_id subject display_name ranks now = do
    joined ← Repository.join id at reservation_id subject display_name ranks now
    pure joined.0

  abbrev pub cancel_participation : ℕ → String → Instant → Tx Tables Reservation
  cancel_participation reservation_id subject now =
      Repository.cancel_participation reservation_id subject now

  abbrev pub list_comments : ℕ → Tx Tables (List Comment)
  list_comments reservation_id = Comments.list_comments reservation_id

  abbrev pub add_comment : ℕ → Instant → ℕ → String → String → String → Tx Tables Comment
  add_comment id at reservation_id subject display_name body =
      Comments.add_comment id at reservation_id subject display_name (strip body)

  abbrev pub delete_comment : ℕ → ℕ → String → Bool → Instant → Tx Tables (Unit {0})
  delete_comment reservation_id comment_id subject admin now =
      Comments.delete_comment reservation_id comment_id subject now admin

  abbrev pub cancel_reservation : ℕ → String → Instant → Tx Tables (Unit {0})
  cancel_reservation reservation_id subject now = Repository.cancel reservation_id subject now
