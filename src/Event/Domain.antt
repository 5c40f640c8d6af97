-- ===== src/Event/Domain.antt =====
-- event/domain.py: the baseline, the slots and their judging. `str.casefold` is the argument
-- `casefold`; a missing character is Python's IndexError, `none`.
use Prim.Native.Nat.{max}
use tag2now_be.Prelude.{
  ℕ, zero, suc, ◌+◌, String, Bool, not, ◌&&◌, ◌||◌, Option, none, some, List, [], ◌∷◌, leb, ◌==◌,
  str_eq, if◌then◌else◌,
}
use tag2now_be.Prelude.Int.{ℤ, sub_ℕ, ltb_ℤ}

abbrev pub character_count : ℕ
character_count = 59

abbrev pub third_dan : ℕ
third_dan = 12

abbrev pub sub_steps : ℕ
sub_steps = 3

-- `_SAME_CHARACTER.get`: 0x0B and 0x2B, and 0x07 and 0x30.
unfoldable pub same_character : ℕ → Option ℕ
same_character c =
    if c == 11
    then some 43
    else if c == 43
    then some 11
    else if c == 7
    then some 48
    else if c == 48
    then some 7
    else none

-- `in _PUGILIST_START`.
unfoldable pub starts_at_pugilist : String → Bool
starts_at_pugilist name =
    str_eq name "unnamed" || str_eq name "six_miri" || str_eq name "daddyking_"

pub record CharState : Type 0 where
  pub rank : ℕ
  pub wins : ℕ
  pub losses : ℕ

pub record Baseline : Type 0 where
  pub npid : String
  pub chars : List CharState
  pub account_rank : ℕ
  pub new_player : Bool

-- `max` of the ranks; a baseline has all 59 characters, never none.
abbrev pub max_rank : List CharState → ℕ
max_rank [] = 0
max_rank (c ∷ cs) = max c.rank (max_rank cs)

unfoldable pub top_rank : Baseline → ℕ
top_rank b = max_rank b.chars

unfoldable pub best_rank : Baseline → ℕ
best_rank b = max b.account_rank (top_rank b)

unfoldable pub main_steps : Baseline → ℕ
main_steps b =
    let steps : ℕ = if leb 25 (top_rank b) then 1 else 2 in
    if not (best_rank b == top_rank b) then steps + 1 else steps

unfoldable pub sub_floor : (String → String) → Baseline → ℕ
sub_floor casefold b =
    let best = best_rank b in
    if leb 25 best
    then (if starts_at_pugilist (casefold b.npid) then 24 else 20)
    else if leb 21 best
    then 15
    else if leb 17 best
    then third_dan
    else if leb 13 best
    then 11
    else 10

unfoldable pub number_only : Baseline → Bool
number_only b = leb (best_rank b) third_dan

pub record Slot : Type 0 where
  pub char_id : ℕ
  pub main : Bool
  pub start : ℕ
  pub steps : ℕ
  pub rank : ℕ
  pub played : Bool

unfoldable pub target : Slot → ℕ
target s = s.start + s.steps

unfoldable pub gain : Slot → ℤ
gain s = sub_ℕ s.rank s.start

unfoldable pub achieved : Slot → Bool
unfolding target
achieved s = s.played && leb (target s) s.rank

pub record Standing : Type 0 where
  pub baseline : Baseline
  pub slots : List Slot

-- `max(…, key=gain, default=None)` over the achieved slots: the first of the best.
abbrev keep_best : Slot → Option Slot → Slot
keep_best s none = s
keep_best s (some t) = if ltb_ℤ (gain s) (gain t) then t else s

unfoldable pub best_slot : List Slot → Option Slot
best_slot [] = none
best_slot (s ∷ ss) = let rest = best_slot ss in if achieved s then some (keep_best s rest) else rest

unfoldable pub best : Standing → Option Slot
unfolding best_slot
best s = best_slot s.slots

unfoldable pub char_at : List CharState → ℕ → Option CharState
char_at [] i = none
char_at (c ∷ cs) zero = some c
char_at (c ∷ cs) (suc i) = char_at cs i

-- `rank` of `_slot`: of a character that saves twice, the higher of the two.
unfoldable pub slot_rank : Baseline → ℕ → CharState → Option ℕ
slot_rank b char_id before = elim (same_character char_id) [
  | none ↦ some before.rank
  | some other ↦ elim (char_at b.chars other) [
    | none ↦ none
    | some twin ↦ some (max before.rank twin.rank)
  ]
]

abbrev pub make_slot : (String → String) → Baseline → ℕ → CharState → CharState → ℕ → Slot
make_slot casefold b char_id before now rank =
    let main = rank == top_rank b in
    record {
      char_id = char_id;
      main = main;
      start = if main then rank else max rank (sub_floor casefold b);
      steps = if main then main_steps b else sub_steps;
      rank = now.rank;
      played = not (now.wins == before.wins && now.losses == before.losses);
    }

-- `_slot`.
unfoldable pub slot_of : (String → String) → Baseline → ℕ → CharState → Option Slot
slot_of casefold b char_id now = elim (char_at b.chars char_id) [
  | none ↦ none
  | some before ↦ elim (slot_rank b char_id before) [
    | none ↦ none
    | some rank ↦ some (make_slot casefold b char_id before now rank)
  ]
]
