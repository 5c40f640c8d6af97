-- ===== src/Event/Tests.antt =====
-- Runs of the event code at concrete inputs, and its theorems there.
use tag2now_be.Prelude.{
  ℕ, zero, suc, ◌+◌, ◌≤◌, ◌≡◌, refl, String, Bool, true, false, some, List, [], ◌∷◌, arith, All,
  count_of,
}
use tag2now_be.Prelude.Int.{sub_ℕ}
use tag2now_be.Event.Domain.{
  CharState, Baseline, Slot, Standing, top_rank, best_rank, sub_floor, starts_at_pugilist, gain,
  achieved, target, slot_rank, best_slot, same_character, char_at, slot_of,
}
use tag2now_be.Event.Board.{
  climbed_further, SaveChar, apply_saves, judge, achieved_standings, achievers, achievers_places,
}
use tag2now_be.Event.Slots.{twins_agree}
use tag2now_be.Event.Judging.{AreSlotsOf, judge_total}

abbrev state : ℕ → ℕ → CharState
state rank wins = record { rank = rank; wins = wins; losses = 0 }

abbrev states : ℕ → List CharState
states zero = []
states (suc n) = state n 5 ∷ states n

-- Character i of 59 stands at rank 58 - i.
abbrev ann : Baseline
ann = record { npid = "ann"; chars = states 59; account_rank = 60; new_player = false }

abbrev same_text : String → String
same_text s = s

abbrev saves : List SaveChar
saves = record { id = 7; rank = 60; wins = 9; losses = 0 } ∷ []

judge_total_example :
    (now : List CharState) × (ss : List Slot) × (apply_saves ann.chars saves ≡ some now)
    × (judge same_text ann saves ≡ some (record { baseline = ann; slots = ss }))
    × AreSlotsOf 0 now ss
judge_total_example = judge_total same_text ann refl saves (omega arith, tt)

-- Kuma (11) and Panda (43) stand at ranks 47 and 15, and start together at 47; Panda climbs to 60.
abbrev slot : ℕ → ℕ → Slot
slot char_id rank = record {
  char_id = char_id;
  main = false;
  start = 47;
  steps = 3;
  rank = rank;
  played = true;
}

slot-kuma : slot_of same_text ann 11 (state 47 9) ≡ some (slot 11 47)
unfolding slot_of slot_rank same_character char_at top_rank best_rank sub_floor starts_at_pugilist
slot-kuma = refl

slot-panda : slot_of same_text ann 43 (state 60 9) ≡ some (slot 43 60)
unfolding slot_of slot_rank same_character char_at top_rank best_rank sub_floor starts_at_pugilist
slot-panda = refl

twin-kuma : same_character 11 ≡ some 43
unfolding same_character
twin-kuma = refl

reached : 10 ≤ best_rank ann
unfolding best_rank
reached = omega arith

twins_agree_example :
    ((slot 11 47).start ≡ (slot 43 60).start)
    × ((slot 11 47).main ≡ (slot 43 60).main)
    × ((slot 11 47).steps ≡ (slot 43 60).steps)
twins_agree_example =
    twins_agree same_text ann 11 43 (state 47 9) (state 60 9) (slot 11 47) (slot 43 60) twin-kuma
      slot-kuma slot-panda

abbrev slots : List Slot
slots = slot 11 47 ∷ slot 43 60 ∷ slot 3 52 ∷ []

best-slots : best_slot slots ≡ some (slot 43 60)
unfolding best_slot achieved target gain sub_ℕ
best-slots = refl

-- Texts that are all equal: a strict order with nothing in it.
abbrev no_lt : String → String → Bool
no_lt a b = false

abbrev standings : List Standing
standings =
    record { baseline = ann; slots = slots }
    ∷ record { baseline = ann; slots = [] }
    ∷ record { baseline = ann; slots = slot 3 52 ∷ [] }
    ∷ []

achievers_places_example :
    All
      (λ e.
        e.0
        ≡ 1 + count_of (λ s. climbed_further s e.1) (achieved_standings same_text no_lt standings))
      (achievers same_text no_lt standings)
achievers_places_example =
    achievers_places same_text no_lt (λ a b h. refl) (λ a b c h k. refl) standings
