-- ===== src/Records/Rows.antt =====
-- The tables of records/entities.py. `save_states` is keyed by the player. The JSON of a state's
-- tallies is the table of tallies itself, and `last_error` the error rather than its text.
use tag2now_be.Prelude.{ℕ, String, Bool, true, false, Option, none, some, List, Error, Table, ◌==◌}
use tag2now_be.Prelude.Dict.{Dict}
use tag2now_be.Time.{Instant}
use tag2now_be.History.Rows as History
use tag2now_be.Records.Domain.{MatchOutcome, Side, p1, p2, CharTally}

pub record SaveStateRow : Type 0 where
  pub data_id : ℕ
  pub saved_at : Instant
  pub wins : ℕ
  pub losses : ℕ
  pub chars : Table CharTally
  pub start_chars : List ℕ
  pub merged_count : ℕ

pub data EventStatus : Type 0 where
  pending done dead : EventStatus

pub record MatchEventRow : Type 0 where
  pub npid : String
  pub data_id : ℕ
  pub outcome : MatchOutcome
  pub chars : List ℕ
  pub ranks : Option (List (Option ℕ))
  pub saved_at : Instant
  pub status : EventStatus
  pub attempts : ℕ
  pub available_at : Instant
  pub last_error : Option Error

pub record MatchRow : Type 0 where
  pub played_at : Instant
  pub room_snapshot_id : Option ℕ
  pub p1_npid : String
  pub p2_npid : Option String
  pub winner : Side
  pub p1_event_id : Option ℕ
  pub p2_event_id : Option ℕ

pub record Tables : Type 0 where
  pub save_states : Dict SaveStateRow
  pub match_events : Table MatchEventRow
  pub matches : Table MatchRow
  pub history : History.Tables

pub record MatchEvent : Type 0 where
  pub id : ℕ
  pub npid : String
  pub outcome : MatchOutcome
  pub chars : List ℕ
  pub saved_at : Instant
  pub ranks : Option (List (Option ℕ))
  pub attempts : ℕ

abbrev pub is_pending : EventStatus → Bool
is_pending pending = true
is_pending _ = false

-- Whether a column that may be null has a value.
abbrev pub names : Option ℕ → ℕ → Bool
names none id = false
names (some n) id = n == id

-- `_EVENT_IDS[side]`.
abbrev pub event_id : Side → MatchRow → Option ℕ
event_id p1 row = row.p1_event_id
event_id p2 row = row.p2_event_id

abbrev pub with_event : Side → ℕ → MatchRow → MatchRow
with_event p1 id row = record row { p1_event_id = some id }
with_event p2 id row = record row { p2_event_id = some id }
