-- ===== src/Records/Comparing.antt =====
-- What `compare` of records/domain.py finds between two saves.
use tag2now_be.Prelude.{
  ℕ, ◌≡◌, ◌∙◌, refl, String, true, false, not, ◌&&◌, ◌||◌, some, List, [], ◌∷◌, arith, Table,
  lookup, ltb, ◌==◌, any_of, any_of-sort_by, IsKeyed, is_some, str_eq, Bool-cases, inl, inr,
}
use tag2now_be.Records.Domain.{
  MatchOutcome, win, loss, Side, p1, p2, other, CharTally, PlayerSave, PlayerMatch, count_for,
  tally_of, raised_from, raised, is_in, covers, same_set, played, changed_by, compare, side_of,
  winner, outcome_of,
}
use tag2now_be.History.Rows.{RankRoom}

abbrev pub if_won : MatchOutcome → ℕ
if_won win = 1
if_won loss = 0

abbrev pub if_lost : MatchOutcome → ℕ
if_lost win = 0
if_lost loss = 1

-- A comparison finds a match exactly when the saves are one win or one loss apart, and that is its
-- outcome; it counts a jump exactly when the saves are neither equal nor one match apart.
pub compare_cases :
    (before after : PlayerSave)
    → (is_some (compare before after).match
        ≡ (changed_by before after 1 0 || changed_by before after 0 1))
      × ((compare before after).merged
          ≡ not (
              changed_by before after 0 0
              || changed_by before after 1 0
              || changed_by before after 0 1))
      × ((m : PlayerMatch)
          → (compare before after).match ≡ some m
          → changed_by before after (if_won m.outcome) (if_lost m.outcome) ≡ true)
unfolding compare
compare_cases before after = (ground arith, ground arith, λ m e. ground arith)

is_in-covers :
    (x : ℕ) (xs ys : List ℕ) → covers xs ys ≡ true → is_in x ys ≡ true → is_in x xs ≡ true
unfolding covers any_of
is_in-covers x xs [] h e = ground arith
is_in-covers x xs (y ∷ ys) h e = elim (Bool-cases (y == x)) [
  | inl same ↦
      let named : y ≡ x = ground arith in
      let there : is_in y xs ≡ true = ground arith in rw named at there
  | inr other ↦ is_in-covers x xs ys (ground arith) (ground arith)
]

same_set-is_in : (x : ℕ) (xs ys : List ℕ) → same_set xs ys ≡ true → is_in x xs ≡ is_in x ys
same_set-is_in x xs ys h =
    ground (arith, is_in-covers x xs ys (ground arith), is_in-covers x ys xs (ground arith))

is_in-raised_from :
    (before : PlayerSave) (outcome : MatchOutcome) (char_id : ℕ) (tallies : Table CharTally)
    → IsKeyed tallies
    → is_in char_id (raised_from before outcome tallies) ≡ (
        is_some (lookup char_id tallies)
        && ltb
            (count_for (tally_of before.tallies char_id) outcome)
            (count_for (tally_of tallies char_id) outcome))
unfolding raised_from any_of
is_in-raised_from before outcome char_id [] h = refl
is_in-raised_from before outcome char_id ((k, v) ∷ tallies) h =
    ground (arith, is_in-raised_from before outcome char_id tallies h.1)

-- A character counts as played exactly when its tally of the outcome has risen, whichever order the
-- characters stand in, and the match has a rank for each of them.
pub played_iff :
    (before after : PlayerSave) (outcome : MatchOutcome) (char_id : ℕ)
    → IsKeyed after.tallies
    → is_in char_id (played before after outcome) ≡ (
        is_some (lookup char_id after.tallies)
        && ltb
            (count_for (tally_of before.tallies char_id) outcome)
            (count_for (tally_of after.tallies char_id) outcome))
unfolding played raised
played_iff before after outcome char_id keyed =
    let chars = raised before after outcome in
    elim (Bool-cases (same_set before.entered_chars chars)) [
      | inl same ↦ rw same (
          same_set-is_in char_id before.entered_chars chars same
          ∙ is_in-raised_from before outcome char_id after.tallies keyed)
      | inr other ↦ rw other (
          any_of-sort_by (λ y. y == char_id) ltb chars
          ∙ is_in-raised_from before outcome char_id after.tallies keyed)
    ]

-- The side that a match is recorded for gives each player the outcome that their own save showed.
pub outcome_of-winner :
    (side : Side) (outcome : MatchOutcome) → outcome_of side (winner side outcome) ≡ outcome
unfolding outcome_of winner
outcome_of-winner p1 win = refl
outcome_of-winner p1 loss = refl
outcome_of-winner p2 win = refl
outcome_of-winner p2 loss = refl

-- The two players of one room, of whom one has won and the other lost, name the same winner.
pub winner_agrees :
    (room : RankRoom) (a b : String)
    → str_eq room.user1_npid a ≡ true
    → str_eq room.user1_npid b ≡ false
    → (winner (side_of (some room) a) win ≡ winner (side_of (some room) b) loss)
      × (winner (side_of (some room) a) loss ≡ winner (side_of (some room) b) win)
unfolding winner side_of
winner_agrees room a b ha hb = ground arith
