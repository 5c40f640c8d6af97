-- ===== src/Reservation/Rows.antt =====
-- The tables of reservation/entities.py, and the domain objects that the adapter reads from them.
use tag2now_be.Prelude.{ℕ, String, Bool, ◌&&◌, Option, List, Table, is_none, ◌==◌, same_text}
use tag2now_be.Time.{Instant}
use tag2now_be.Reservation.Domain.{MatchType, ReservationStatus}

-- `status` and `match_type` are text columns that only ever hold a value of their enum.
pub record ReservationRow : Type 0 where
  pub start_at : Instant
  pub host_display_name : String
  pub host_subject : Option String
  pub host_ranks : List String
  pub match_type : MatchType
  pub capacity : ℕ
  pub memo : String
  pub status : ReservationStatus
  pub created_at : Instant
  pub updated_at : Instant
  pub cancelled_at : Option Instant
  pub ended_at : Option Instant

pub record CommentRow : Type 0 where
  pub reservation_id : ℕ
  pub author : String
  pub author_subject : Option String
  pub body : String
  pub created_at : Instant
  pub deleted_at : Option Instant

pub record ParticipantRow : Type 0 where
  pub reservation_id : ℕ
  pub display_name : String
  pub subject : Option String
  pub ranks : List String
  pub joined_at : Instant
  pub cancelled_at : Option Instant

pub record Tables : Type 0 where
  pub reservations : Table ReservationRow
  pub participants : Table ParticipantRow
  pub comments : Table CommentRow

-- The `WHERE` clauses on participants: a reservation's live seats, and an account's among them.
unfoldable pub is_active_in : ℕ → ParticipantRow → Bool
is_active_in reservation_id p = p.reservation_id == reservation_id && is_none p.cancelled_at

unfoldable pub is_active_by : ℕ → String → ParticipantRow → Bool
unfolding is_active_in
is_active_by reservation_id subject p = is_active_in reservation_id p && same_text p.subject subject

pub record ParticipantSummary : Type 0 where
  pub id : ℕ
  pub display_name : String
  pub username : Option String

pub record Reservation : Type 0 where
  pub id : ℕ
  pub start_at : Instant
  pub host_display_name : String
  pub host_ranks : List String
  pub match_type : MatchType
  pub capacity : ℕ
  pub memo : String
  pub status : ReservationStatus
  pub participant_count : ℕ
  pub created_at : Instant
  pub participants : List ParticipantSummary
  pub host_username : Option String

pub record Comment : Type 0 where
  pub id : ℕ
  pub reservation_id : ℕ
  pub author : String
  pub body : String
  pub created_at : Instant
  pub author_username : Option String

pub record Participant : Type 0 where
  pub id : ℕ
  pub reservation_id : ℕ
  pub display_name : String
  pub ranks : List String
  pub joined_at : Instant

-- The fields of an edit; one that is absent stays as it is.
pub record Changes : Type 0 where
  pub start_at : Option Instant
  pub ranks : Option (List String)
  pub match_type : Option MatchType
  pub capacity : Option ℕ
  pub memo : Option String
