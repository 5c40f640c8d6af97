-- ===== src/Records/Domain.antt =====
-- records/domain.py and the data of records/models.py. A dict keyed by character ids is a table.
use tag2now_be.Prelude.{
  ℕ, ◌+◌, String, Bool, true, false, ◌&&◌, Option, none, some, List, [], ◌∷◌, map, Table, lookup,
  ltb, ◌==◌, if◌then◌else◌, sort_by, any_of, get_or, str_eq,
}
use tag2now_be.Time.{Instant}
use tag2now_be.History.Rows.{RankRoom}

pub data MatchOutcome : Type 0 where
  win loss : MatchOutcome

pub data Side : Type 0 where
  p1 p2 : Side

unfoldable pub other : Side → Side
other p1 = p2
other p2 = p1

pub record CharTally : Type 0 where
  pub wins : ℕ
  pub losses : ℕ
  pub rank : Option ℕ

pub record PlayerSave : Type 0 where
  pub npid : String
  pub data_id : ℕ
  pub saved_at : Instant
  pub wins : ℕ
  pub losses : ℕ
  pub tallies : Table CharTally
  pub entered_chars : List ℕ

pub record PlayerMatch : Type 0 where
  pub outcome : MatchOutcome
  pub chars : List ℕ
  pub ranks : List (Option ℕ)

pub record Comparison : Type 0 where
  pub match : Option PlayerMatch
  pub merged : Bool

abbrev pub no_tally : CharTally
no_tally = record { wins = 0; losses = 0; rank = none }

unfoldable pub count_for : CharTally → MatchOutcome → ℕ
count_for tally win = tally.wins
count_for tally loss = tally.losses

abbrev pub tally_of : Table CharTally → ℕ → CharTally
tally_of tallies char_id = get_or (lookup char_id tallies) no_tally

-- The set `raised`, in the dict's order.
unfoldable pub raised_from : PlayerSave → MatchOutcome → Table CharTally → List ℕ
raised_from before outcome [] = []
raised_from before outcome ((char_id, tally) ∷ tallies) =
    let rest = raised_from before outcome tallies in
    if ltb (count_for (tally_of before.tallies char_id) outcome) (count_for tally outcome)
    then char_id ∷ rest
    else rest

unfoldable pub raised : PlayerSave → PlayerSave → MatchOutcome → List ℕ
raised before after outcome = raised_from before outcome after.tallies

abbrev pub is_in : ℕ → List ℕ → Bool
is_in x xs = any_of (λ y. y == x) xs

unfoldable pub covers : List ℕ → List ℕ → Bool
covers xs [] = true
covers xs (y ∷ ys) = is_in y xs && covers xs ys

-- `set(xs) == set(ys)`.
abbrev pub same_set : List ℕ → List ℕ → Bool
same_set xs ys = covers xs ys && covers ys xs

unfoldable pub played : PlayerSave → PlayerSave → MatchOutcome → List ℕ
unfolding raised covers
played before after outcome =
    let chars = raised before after outcome in
    if same_set before.entered_chars chars then before.entered_chars else sort_by ltb chars

-- The result's own tally is there for each character that was played.
abbrev rank_or_after : Option ℕ → Option ℕ → Option ℕ
rank_or_after none after = after
rank_or_after (some rank) after = some rank

unfoldable pub rank_going_in : PlayerSave → PlayerSave → ℕ → Option ℕ
rank_going_in before after char_id =
    rank_or_after (tally_of before.tallies char_id).rank (tally_of after.tallies char_id).rank

abbrev pub changed_by : PlayerSave → PlayerSave → ℕ → ℕ → Bool
changed_by before after wins losses =
    after.wins == before.wins + wins && after.losses == before.losses + losses

-- `_ONE_MATCH.get(change)`.
unfoldable pub one_match : PlayerSave → PlayerSave → Option MatchOutcome
one_match before after =
    if changed_by before after 1 0
    then some win
    else if changed_by before after 0 1
    then some loss
    else none

abbrev match_of : PlayerSave → PlayerSave → MatchOutcome → PlayerMatch
match_of before after outcome =
    let chars = played before after outcome in
    record { outcome = outcome; chars = chars; ranks = map (rank_going_in before after) chars }

unfoldable pub compare : PlayerSave → PlayerSave → Comparison
unfolding one_match
compare before after =
    if changed_by before after 0 0
    then record { match = none; merged = false }
    else elim (one_match before after) [
      | none ↦ record { match = none; merged = true }
      | some outcome ↦ record { match = some (match_of before after outcome); merged = false }
    ]

unfoldable pub side_of : Option RankRoom → String → Side
side_of none npid = p1
side_of (some room) npid = if str_eq room.user1_npid npid then p1 else p2

unfoldable pub winner : Side → MatchOutcome → Side
unfolding other
winner side win = side
winner side loss = other side

unfoldable pub outcome_of : Side → Side → MatchOutcome
outcome_of p1 p1 = win
outcome_of p2 p2 = win
outcome_of _ _ = loss
