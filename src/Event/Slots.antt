-- ===== src/Event/Slots.antt =====
-- What a slot of event/domain.py starts from, and which of the achieved ones is the best.
use Prim.Native.Nat.{max}
use tag2now_be.Prelude.{
  ℕ, zero, suc, ◌≤◌, ◌≡◌, String, true, false, ◌&&◌, none, some, List, [], ◌∷◌, arith, leb, ◌==◌,
  if◌then◌else◌, All, All-mono, Option-cases, inl, inr,
}
use tag2now_be.Prelude.Int.{ltb_ℤ}
use tag2now_be.Event.Domain.{
  CharState, Baseline, Slot, max_rank, top_rank, best_rank, sub_floor, gain, achieved, best_slot,
  char_at, same_character, slot_rank, slot_of,
}

char_at-le-max :
    (cs : List CharState) (i : ℕ) (c : CharState) → char_at cs i ≡ some c → c.rank ≤ max_rank cs
unfolding char_at
char_at-le-max [] i c e = ground arith
char_at-le-max (x ∷ cs) zero c e = ground arith
char_at-le-max (x ∷ cs) (suc i) c e = omega (arith, char_at-le-max cs i c e)

slot_rank-le-top :
    (b : Baseline) (i : ℕ) (before : CharState) (rank : ℕ)
    → char_at b.chars i ≡ some before
    → slot_rank b i before ≡ some rank
    → rank ≤ top_rank b
unfolding slot_rank top_rank
slot_rank-le-top b i before rank at e = elim (Option-cases (same_character i)) [
  | inl alone ↦ ground (arith, char_at-le-max b.chars i before at)
  | inr (other, twin) ↦ elim (Option-cases (char_at b.chars other)) [
    | inl missing ↦ absurd (ground arith)
    | inr (c, found) ↦
        ground (arith, char_at-le-max b.chars i before at, char_at-le-max b.chars other c found)
  ]
]

-- Of an account that has reached 1st dan (10), no sub starts above the highest rank it ever reached.
pub sub_floor-le-best :
    (casefold : String → String) (b : Baseline)
    → 10 ≤ best_rank b
    → sub_floor casefold b ≤ best_rank b
unfolding sub_floor
sub_floor-le-best casefold b h = ground arith

module _ (casefold : String → String) (b : Baseline) where
  -- Of an account that has reached 1st dan (10), every slot starts at or below the highest rank it
  -- ever reached; a main starts at the top rank, a sub at the floor for subs or above.
  pub slot_of-start :
      (i : ℕ) (now : CharState) (s : Slot)
      → 10 ≤ best_rank b
      → slot_of casefold b i now ≡ some s
      → (s.start ≤ best_rank b)
        × ((if s.main then s.start == top_rank b else leb (sub_floor casefold b) s.start) ≡ true)
  unfolding slot_of best_rank
  slot_of-start i now s floor e = elim (Option-cases (char_at b.chars i)) [
    | inl missing ↦ absurd (ground arith)
    | inr (before, at) ↦ elim (Option-cases (slot_rank b i before)) [
      | inl no_twin ↦ absurd (ground arith)
      | inr (rank, found) ↦ (
        ground
            (arith, sub_floor-le-best casefold b floor, slot_rank-le-top b i before rank at found),
        ground arith,
      )
    ]
  ]

  same_character-twin : (i j : ℕ) → same_character i ≡ some j → same_character j ≡ some i
  unfolding same_character
  same_character-twin i j e = ground arith

  -- The rank that a slot of a character that saves twice is judged by.
  slot_rank-twins :
      (i j : ℕ) (a c : CharState)
      → same_character i ≡ some j
      → char_at b.chars j ≡ some c
      → slot_rank b i a ≡ some (max a.rank c.rank)
  unfolding slot_rank
  slot_rank-twins i j a c twin at = ground arith

  -- Two characters that count as one start together: at the same rank, both as mains or both as
  -- subs, and with as many steps to go.
  pub twins_agree :
      (i j : ℕ) (now now' : CharState) (s t : Slot)
      → same_character i ≡ some j
      → slot_of casefold b i now ≡ some s
      → slot_of casefold b j now' ≡ some t
      → (s.start ≡ t.start) × (s.main ≡ t.main) × (s.steps ≡ t.steps)
  unfolding slot_of
  twins_agree i j now now' s t twin e f = elim (Option-cases (char_at b.chars i)) [
    | inl missing ↦ absurd (ground arith)
    | inr (a, at_i) ↦ elim (Option-cases (char_at b.chars j)) [
      | inl missing ↦ absurd (ground arith)
      | inr (c, at_j) ↦ ground (
        arith,
        slot_rank-twins i j a c twin at_j,
        slot_rank-twins j i c a (same_character-twin i j twin) at_i,
      )
    ]
  ]

best_slot-none : (ss : List Slot) → best_slot ss ≡ none → All (λ t. achieved t ≡ false) ss
unfolding best_slot
best_slot-none [] e = tt
best_slot-none (x ∷ ss) e = (ground arith, best_slot-none ss (ground arith))

-- The best slot is an achieved one, and no achieved one has climbed further.
pub best_slot-achieved :
    (ss : List Slot) (s : Slot)
    → best_slot ss ≡ some s
    → (achieved s ≡ true) × All (λ t. (achieved t && ltb_ℤ (gain s) (gain t)) ≡ false) ss
unfolding best_slot
best_slot-achieved [] s e = ground arith
best_slot-achieved (x ∷ ss) s e = elim (Option-cases (best_slot ss)) [
  | inl nothing ↦
      let none_achieved = best_slot-none ss nothing in
      (ground arith, (ground arith, All-mono ss (λ t h. ground arith) none_achieved))
  | inr (r, found) ↦
      let (won, below) = best_slot-achieved ss r found in
      (ground arith, (ground arith, All-mono ss (λ t h. ground arith) below))
]
