-- ===== src/Records/Listing.antt =====
-- Reading the matches: `list_matches` of records/adapters/postgresql.py and of records/service.py, and
-- the answers of records/models.py. `ilike pattern name` is PostgreSQL's case-insensitive search for a
-- text inside a name. The names of the characters and ranks, two constant dicts, are left out of the
-- answers, which keep the numbers.
use tag2now_be.Prelude.{
  ℕ, zero, suc, ◌+◌, ◌-◌, String, Bool, true, false, ◌&&◌, ◌||◌, Option, none, some, List, [], ◌∷◌,
  map, Table, lookup, select, sort_by, take, length, ltb, str_eq, if◌then◌else◌, same_text,
}
use tag2now_be.Time.{Instant}
use tag2now_be.History.Rows.{RankMatchSnapshotRow, online_name_of}
use tag2now_be.Records.Domain.{MatchOutcome, Side, p1, p2, outcome_of}
use tag2now_be.Records.Rows.{MatchEventRow, MatchRow, Tables}

pub record MatchPlayer : Type 0 where
  pub npid : String
  pub online_name : Option String
  pub outcome : MatchOutcome
  pub chars : Option (List ℕ)
  pub ranks : Option (List (Option ℕ))

pub record RecordedMatch : Type 0 where
  pub id : ℕ
  pub played_at : Instant
  pub p1 : MatchPlayer
  pub p2 : Option MatchPlayer

-- The row that a key which may be null refers to.
abbrev pub joined {ℓ} : {V : Type ℓ} → Option ℕ → Table V → Option V
joined none rows = none
joined (some id) rows = lookup id rows

abbrev online_name_in : Option RankMatchSnapshotRow → String → Option String
online_name_in none npid = none
online_name_in (some room) npid = online_name_of room npid

-- `_player`.
unfoldable pub player :
    String → Side → MatchRow → Option MatchEventRow → Option RankMatchSnapshotRow → MatchPlayer
player npid side match none room = record {
  npid = npid;
  online_name = online_name_in room npid;
  outcome = outcome_of side match.winner;
  chars = none;
  ranks = none;
}
player npid side match (some event) room = record {
  npid = npid;
  online_name = online_name_in room npid;
  outcome = outcome_of side match.winner;
  chars = some event.chars;
  ranks = event.ranks;
}

abbrev opponent :
    Option String
    → MatchRow
    → Option MatchEventRow
    → Option RankMatchSnapshotRow
    → Option MatchPlayer
opponent none match event room = none
opponent (some npid) match event room = some (player npid p2 match event room)

-- `_recorded_match`, with the rows that the joins find.
unfoldable pub recorded_match : Tables → ℕ × MatchRow → RecordedMatch
recorded_match db (id, match) =
    let room = joined match.room_snapshot_id db.history.rank_match_snapshots in
    record {
      id = id;
      played_at = match.played_at;
      p1 = player match.p1_npid p1 match (joined match.p1_event_id db.match_events) room;
      p2 = opponent match.p2_npid match (joined match.p2_event_id db.match_events) room;
    }

abbrev pub is_before : Option ℕ → ℕ → Bool
is_before none id = true
is_before (some before) id = ltb id before

abbrev is_of_player : Option String → MatchRow → Bool
is_of_player none match = true
is_of_player (some npid) match = str_eq match.p1_npid npid || same_text match.p2_npid npid

abbrev pub higher_id : ℕ × MatchRow → ℕ × MatchRow → Bool
higher_id a b = ltb b.0 a.0

module _ (ilike : String → String → Bool) where
  abbrev is_like : String → Option String → Bool
  is_like query none = false
  is_like query (some name) = ilike query name

  abbrev room_is_like : String → Option RankMatchSnapshotRow → Bool
  room_is_like query none = false
  room_is_like query (some room) =
      ilike query room.user1_online_name || ilike query room.user2_online_name

  -- `if name_query`: an empty text is no query.
  abbrev is_named_like : Option String → Option RankMatchSnapshotRow → MatchRow → Bool
  is_named_like none room match = true
  is_named_like (some query) room match =
      str_eq query ""
      || ilike query match.p1_npid
      || is_like query match.p2_npid
      || room_is_like query room

  unfoldable pub is_listed : Option String → Option String → Tables → MatchRow → Bool
  is_listed npid name_query db match =
      is_of_player npid match
      && is_named_like name_query (joined match.room_snapshot_id db.history.rank_match_snapshots)
          match

  unfoldable pub list_matches :
      Option String → Option String → Option ℕ → ℕ → Tables → List RecordedMatch
  unfolding recorded_match
  list_matches npid name_query before limit db = map (recorded_match db) (
      take limit (
        sort_by higher_id (
          select (λ id match. is_before before id && is_listed npid name_query db match)
            db.matches)))

pub record RecordCharOut : Type 0 where
  pub char_id : ℕ
  pub rank : Option ℕ

pub record RecordPlayerOut : Type 0 where
  pub npid : String
  pub online_name : Option String
  pub result : MatchOutcome
  pub chars : Option (List RecordCharOut)

pub record MatchRecordOut : Type 0 where
  pub id : ℕ
  pub played_at : Instant
  pub p1 : RecordPlayerOut
  pub p2 : Option RecordPlayerOut

pub record MatchRecordPageOut : Type 0 where
  pub matches : List MatchRecordOut
  pub next_before : Option ℕ

abbrev zip_chars : List ℕ → List (Option ℕ) → List RecordCharOut
zip_chars [] ranks = []
zip_chars (c ∷ chars) [] = []
zip_chars (c ∷ chars) (r ∷ ranks) = record { char_id = c; rank = r } ∷ zip_chars chars ranks

-- `player.ranks or (None,) * len(player.chars)`.
abbrev ranks_or_none : Option (List (Option ℕ)) → List ℕ → List (Option ℕ)
ranks_or_none none chars = map (λ _. none) chars
ranks_or_none (some []) chars = map (λ _. none) chars
ranks_or_none (some (r ∷ ranks)) chars = r ∷ ranks

-- `_chars_out`.
abbrev chars_out : Option (List ℕ) → Option (List (Option ℕ)) → Option (List RecordCharOut)
chars_out none ranks = none
chars_out (some chars) ranks = some (zip_chars chars (ranks_or_none ranks chars))

abbrev player_out : MatchPlayer → RecordPlayerOut
player_out player = record {
  npid = player.npid;
  online_name = player.online_name;
  result = player.outcome;
  chars = chars_out player.chars player.ranks;
}

abbrev opponent_out : Option MatchPlayer → Option RecordPlayerOut
opponent_out none = none
opponent_out (some player) = some (player_out player)

unfoldable pub match_out : RecordedMatch → MatchRecordOut
match_out match = record {
  id = match.id;
  played_at = match.played_at;
  p1 = player_out match.p1;
  p2 = opponent_out match.p2;
}

-- `found[limit - 1].id`.
abbrev pub id_at : ℕ → List RecordedMatch → Option ℕ
id_at n [] = none
id_at zero (match ∷ found) = some match.id
id_at (suc n) (match ∷ found) = id_at n found

unfoldable pub list_page :
    (String → String → Bool)
    → Option String
    → Option String
    → Option ℕ
    → ℕ
    → Tables
    → MatchRecordPageOut
unfolding list_matches match_out
list_page ilike npid name_query before limit db =
    let found = list_matches ilike npid name_query before (limit + 1) db in
    record {
      matches = map match_out (take limit found);
      next_before = (if ltb limit (length found) then id_at (limit - 1) found else none);
    }
