-- ===== src/Event/Judging.antt =====
-- `judge` of event/domain.py finds a slot for each character.
use Prim.Native.Nat.{max}
use tag2now_be.Prelude.{
  ℕ, zero, suc, ◌+◌, ◌≤◌, ◌<◌, ◌≡◌, refl, ◌∙◌, String, true, some, List, [], ◌∷◌, arith, All,
  length, Option-cases, inl, inr, is_some,
}
use tag2now_be.Event.Domain.{
  CharState, Baseline, Slot, char_at, same_character, slot_rank, make_slot, slot_of,
}
use tag2now_be.Event.Board.{SaveChar, set_char, apply_saves, slots_from, judge}

char_at-total : (cs : List CharState) (i : ℕ) → i < length cs → is_some (char_at cs i) ≡ true
unfolding char_at
char_at-total [] i h = ground arith
char_at-total (x ∷ cs) zero h = refl
char_at-total (x ∷ cs) (suc i) h = char_at-total cs i (omega (arith, h))

same_character-bound : (i j : ℕ) → same_character i ≡ some j → j < 59
unfolding same_character
same_character-bound i j e = ground arith

set_char-total :
    (cs : List CharState) (i : ℕ) (c : CharState)
    → i < length cs
    → (ds : List CharState) × (set_char cs i c ≡ some ds) × (length ds ≡ length cs)
unfolding set_char
set_char-total [] i c h = absurd (omega (arith, h))
set_char-total (x ∷ cs) zero c h = (c ∷ cs, refl, refl)
set_char-total (x ∷ cs) (suc i) c h =
    let (ds, e, l) = set_char-total cs i c (omega (arith, h)) in
    (x ∷ ds, ground arith, omega (arith, l))

apply_saves-next :
    (cs ds : List CharState) (s : SaveChar) (ss : List SaveChar)
    → set_char cs s.id (record { rank = s.rank; wins = s.wins; losses = s.losses }) ≡ some ds
    → apply_saves cs (s ∷ ss) ≡ apply_saves ds ss
unfolding apply_saves
apply_saves-next cs ds s ss e = ground arith

apply_saves-total :
    (cs : List CharState) (saves : List SaveChar)
    → All (λ s. s.id < length cs) saves
    → (ds : List CharState) × (apply_saves cs saves ≡ some ds) × (length ds ≡ length cs)
unfolding apply_saves
apply_saves-total cs [] h = (cs, refl, refl)
apply_saves-total cs (s ∷ ss) h =
    let (ds, e, l) =
      set_char-total cs s.id (record { rank = s.rank; wins = s.wins; losses = s.losses }) h.0 in
    let (es, f, m) = apply_saves-total ds ss (rw l h.1) in
    (es, apply_saves-next cs ds s ss e ∙ f, omega (arith, l, m))

-- The slots in the order of the characters, each with its character's rank.
abbrev pub AreSlotsOf : ℕ → List CharState → List Slot → Type 0
AreSlotsOf i [] [] = Unit
AreSlotsOf i (c ∷ cs) (s ∷ ss) = (s.char_id ≡ i) × (s.rank ≡ c.rank) × AreSlotsOf (i + 1) cs ss
AreSlotsOf _ _ _ = ⊥

module _ (casefold : String → String) (b : Baseline) (whole : length b.chars ≡ 59) where
  slot_rank-total : (i : ℕ) (before : CharState) → (rank : ℕ) × (slot_rank b i before ≡ some rank)
  unfolding slot_rank
  slot_rank-total i before = elim (Option-cases (same_character i)) [
    | inl alone ↦ (before.rank, ground arith)
    | inr (j, twin) ↦ elim (Option-cases (char_at b.chars j)) [
      | inl missing ↦ absurd (
          ground
            (arith, char_at-total b.chars j (omega (arith, whole, same_character-bound i j twin))))
      | inr (c, at) ↦ (max before.rank c.rank, ground arith)
    ]
  ]

  slot_of-total :
      (i : ℕ) (now : CharState)
      → i < 59
      → (s : Slot) × (slot_of casefold b i now ≡ some s) × (s.char_id ≡ i) × (s.rank ≡ now.rank)
  unfolding slot_of
  slot_of-total i now h = elim (Option-cases (char_at b.chars i)) [
    | inl missing ↦ absurd (ground (arith, char_at-total b.chars i (omega (arith, whole, h))))
    | inr (before, at) ↦
        let (rank, found) = slot_rank-total i before in
        (make_slot casefold b i before now rank, ground arith, refl, refl)
  ]

  slots_from-total :
      (i : ℕ) (now : List CharState)
      → i + length now ≤ 59
      → (ss : List Slot) × (slots_from casefold b i now ≡ some ss) × AreSlotsOf i now ss
  unfolding slots_from
  slots_from-total i [] h = ([], refl, tt)
  slots_from-total i (c ∷ cs) h =
      let (s, e, id, rank) = slot_of-total i c (omega (arith, h)) in
      let (ss, f, rest) = slots_from-total (i + 1) cs (omega (arith, h)) in
      (s ∷ ss, ground arith, (id, rank, rest))

  -- Of a baseline with all 59 characters, saves of those characters are judged: nothing raises, and
  -- the standing has one slot for each character, in order, with the rank that the saves left.
  pub judge_total :
      (saves : List SaveChar)
      → All (λ s. s.id < 59) saves
      → (now : List CharState) × (ss : List Slot) × (apply_saves b.chars saves ≡ some now)
        × (judge casefold b saves ≡ some (record { baseline = b; slots = ss }))
        × AreSlotsOf 0 now ss
  unfolding judge
  judge_total saves h =
      let (now, e, l) = apply_saves-total b.chars saves (rw whole h) in
      let (ss, f, facts) = slots_from-total 0 now (omega (arith, l, whole)) in
      (now, ss, e, ground arith, facts)
