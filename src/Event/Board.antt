-- ===== src/Event/Board.antt =====
-- `judge` and `achievers` of event/domain.py. Python's order of texts is the argument `text_lt`.
use tag2now_be.Prelude.{
  ℕ, zero, suc, ◌+◌, ◌≡◌, ◌∙◌, String, Bool, true, false, ◌&&◌, ◌||◌, Option, none, some, List, [],
  ◌∷◌, arith, sort_by, is_some, filter_by, All, All-mono, count_of, count_of-sort_by, IsSortedBy,
  IsSortedBy-mono, sort_by-IsSortedBy,
}
use tag2now_be.Prelude.Int.{ℤ, pos, ltb_ℤ, eqb_ℤ}
use tag2now_be.Places.{IsRanking, groups, place_groups, places-count, places-whole}
use tag2now_be.Event.Domain.{CharState, Baseline, Slot, Standing, gain, best, slot_of}

-- An entry of save-admin's list.
pub record SaveChar : Type 0 where
  pub id : ℕ
  pub rank : ℕ
  pub wins : ℕ
  pub losses : ℕ

abbrev cons_char : CharState → Option (List CharState) → Option (List CharState)
cons_char c none = none
cons_char c (some cs) = some (c ∷ cs)

-- `now[i] = c`; an index past the end raises.
unfoldable pub set_char : List CharState → ℕ → CharState → Option (List CharState)
set_char [] i c = none
set_char (x ∷ xs) zero c = some (c ∷ xs)
set_char (x ∷ xs) (suc i) c = cons_char x (set_char xs i c)

-- The loop of `judge` over the saves of one player.
unfoldable pub apply_saves : List CharState → List SaveChar → Option (List CharState)
apply_saves now [] = some now
apply_saves now (s ∷ ss) =
    elim (set_char now s.id (record { rank = s.rank; wins = s.wins; losses = s.losses })) [
      | none ↦ none
      | some now' ↦ apply_saves now' ss
    ]

abbrev cons_slot : Option Slot → Option (List Slot) → Option (List Slot)
cons_slot (some s) (some ss) = some (s ∷ ss)
cons_slot _ _ = none

-- `_slot(baseline, i, state) for i, state in enumerate(now)`.
unfoldable pub slots_from : (String → String) → Baseline → ℕ → List CharState → Option (List Slot)
slots_from casefold b i [] = some []
slots_from casefold b i (c ∷ cs) =
    cons_slot (slot_of casefold b i c) (slots_from casefold b (i + 1) cs)

abbrev standing_of : Baseline → Option (List Slot) → Option Standing
standing_of b none = none
standing_of b (some slots) = some (record { baseline = b; slots = slots })

unfoldable pub judge : (String → String) → Baseline → List SaveChar → Option Standing
judge casefold b chars = elim (apply_saves b.chars chars) [
  | none ↦ none
  | some now ↦ standing_of b (slots_from casefold b 0 now)
]

-- `s.best.gain`, of a standing that has a best slot.
abbrev gain_of : Option Slot → ℤ
gain_of none = pos 0
gain_of (some s) = gain s

unfoldable pub best_gain : Standing → ℤ
best_gain s = gain_of (best s)

abbrev pub climbed_further : Standing → Standing → Bool
climbed_further x y = ltb_ℤ (best_gain y) (best_gain x)

abbrev pub climbed_as_far : Standing → Standing → Bool
climbed_as_far x y = eqb_ℤ (best_gain x) (best_gain y)

climbed_further-IsRanking : IsRanking climbed_further climbed_as_far
climbed_further-IsRanking = record {
  irreflexive = λ x. ground arith;
  total = λ x y h k. ground arith;
  same_above = λ x y z h. ground arith;
  same_below = λ x y z h. ground arith;
  weak = λ x y z h k. ground arith;
  transitive = λ x y z h k. ground arith;
}

module _ (casefold : String → String) (text_lt : String → String → Bool) where
  -- The key `(-gain, casefold(npid))`.
  unfoldable pub climbed_before : Standing → Standing → Bool
  climbed_before x y =
      ltb_ℤ (best_gain y) (best_gain x)
      || (eqb_ℤ (best_gain x) (best_gain y)
          && text_lt (casefold x.baseline.npid) (casefold y.baseline.npid))

  abbrev pub achieved_standings : List Standing → List Standing
  achieved_standings standings = filter_by (λ s. is_some (best s)) standings

  unfoldable pub achievers : List Standing → List (ℕ × Standing)
  achievers standings = place_groups climbed_further climbed_as_far 1 (
      groups climbed_further climbed_as_far (sort_by climbed_before (achieved_standings standings)))

  module _ (asym : (a b : String) → text_lt a b ≡ true → text_lt b a ≡ false)
      (trans : (a b c : String)
        → text_lt b a ≡ false
        → text_lt c b ≡ false
        → text_lt c a ≡ false) where
    climbed_before_asym : (x y : Standing) → climbed_before y x ≡ true → climbed_before x y ≡ false
    unfolding climbed_before
    climbed_before_asym x y h =
        ground (arith, asym (casefold y.baseline.npid) (casefold x.baseline.npid))

    climbed_before_trans :
        (x y z : Standing)
        → climbed_before y x ≡ false
        → climbed_before z y ≡ false
        → climbed_before z x ≡ false
    unfolding climbed_before
    climbed_before_trans x y z h k = ground (
      arith,
      trans (casefold x.baseline.npid) (casefold y.baseline.npid) (casefold z.baseline.npid),
    )

    IsSortedBy-gain :
        (standings : List Standing) → IsSortedBy climbed_further (sort_by climbed_before standings)
    unfolding climbed_before
    IsSortedBy-gain standings =
        IsSortedBy-mono climbed_before climbed_further (sort_by climbed_before standings)
          (λ x y h. ground arith)
          (sort_by-IsSortedBy climbed_before climbed_before_asym climbed_before_trans standings)

    -- With texts in a strict order, an achiever's place is one more than the number of achievers who
    -- have climbed further: equal climbs share a place, and the next place skips them.
    pub achievers_places :
        (standings : List Standing)
        → All
            (λ e. e.0 ≡ 1 + count_of (λ s. climbed_further s e.1) (achieved_standings standings))
            (achievers standings)
    unfolding achievers
    achievers_places standings =
        let sorted = sort_by climbed_before (achieved_standings standings) in
        All-mono (achievers standings)
          (λ e h. omega (
            arith,
            h,
            count_of-sort_by (λ s. climbed_further s e.1) climbed_before
                (achieved_standings standings),
          ))
          (places-count climbed_further climbed_as_far climbed_further-IsRanking sorted
            (IsSortedBy-gain (achieved_standings standings)))

    -- The board holds the standings with a best slot, each as often as it was given, and no other.
    pub achievers_whole :
        (p : Standing → Bool) (standings : List Standing)
        → count_of (λ e. p e.1) (achievers standings) ≡ count_of p (achieved_standings standings)
    unfolding achievers
    achievers_whole p standings =
        places-whole climbed_further climbed_as_far climbed_further-IsRanking p
          (sort_by climbed_before (achieved_standings standings))
          (IsSortedBy-gain (achieved_standings standings))
        ∙ count_of-sort_by p climbed_before (achieved_standings standings)
