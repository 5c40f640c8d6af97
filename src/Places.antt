-- ===== src/Places.antt =====
-- The places of a board, as `achievers` of event/domain.py and `current_rank_board` of saves/domain.py
-- make them: runs of equal keys in a list that stands best first, as `itertools.groupby` makes them,
-- and a place for each run.
use tag2now_be.Prelude.{
  ℕ, ◌+◌, ◌≡◌, refl, ap, ◌∙◌, Bool, true, false, List, [], ◌∷◌, ◌++◌, arith, All, All-append,
  All-mono, All-split, All-swap, All-both, count_of, count_of-append, length, IsSortedBy,
  if◌then◌else◌, Bool-cases, inl, inr,
}

-- `same` is what two elements are of which neither is better.
pub record IsRanking {A : Type 0} (better same : A → A → Bool) : Type 0 where
  pub irreflexive : (x : A) → better x x ≡ false
  pub total : (x y : A) → same x y ≡ false → better y x ≡ false → better x y ≡ true
  pub same_above : (x y z : A) → same x y ≡ true → better x z ≡ better y z
  pub same_below : (x y z : A) → same x y ≡ true → better z x ≡ better z y
  pub weak : (x y z : A) → better x y ≡ false → better y z ≡ false → better x z ≡ false
  pub transitive : (x y z : A) → better x y ≡ true → better y z ≡ true → better x z ≡ true

module _ {A : Type 0} (better same : A → A → Bool) where
  join_group : A → List (List A) → List (List A)
  join_group x [] = (x ∷ []) ∷ []
  join_group x ([] ∷ gs) = (x ∷ []) ∷ gs
  join_group x ((y ∷ ys) ∷ gs) = if same x y then (x ∷ y ∷ ys) ∷ gs else (x ∷ []) ∷ (y ∷ ys) ∷ gs

  -- `groupby(…, key=key)`, each run as a list.
  unfoldable pub groups : List A → List (List A)
  unfolding join_group
  groups [] = []
  groups (x ∷ xs) = join_group x (groups xs)

  tag : ℕ → List A → List (ℕ × A)
  tag place [] = []
  tag place (x ∷ xs) = (place, x) ∷ tag place xs

  -- The loop over the runs: `board += …; place += len(tied)`.
  unfoldable pub place_groups : ℕ → List (List A) → List (ℕ × A)
  unfolding tag
  place_groups place [] = []
  place_groups place (tied ∷ gs) = tag place tied ++ place_groups (place + length tied) gs

  abbrev joined : List (List A) → List A
  joined [] = []
  joined (g ∷ gs) = g ++ joined gs

  -- A run is not empty, has one key, and stands before everything worse.
  abbrev IsRun : List A → List A → Type 0
  IsRun [] rest = ⊥
  IsRun (x ∷ xs) rest =
      All (λ z. All (λ y. better y z ≡ false) (x ∷ xs) × All (λ y. better z y ≡ true) rest) (x ∷ xs)

  abbrev AreRuns : List (List A) → Type 0
  AreRuns [] = Unit
  AreRuns (g ∷ gs) = IsRun g (joined gs) × AreRuns gs

  module _ (ranking : IsRanking better same) where
    count_of-none : (p : A → Bool) (xs : List A) → All (λ x. p x ≡ false) xs → count_of p xs ≡ 0
    unfolding count_of
    count_of-none p [] h = refl
    count_of-none p (x ∷ xs) h = ground (arith, count_of-none p xs h.1)

    count_of-All :
        (p : A → Bool) (xs : List A) → All (λ x. p x ≡ true) xs → count_of p xs ≡ length xs
    unfolding count_of
    count_of-All p [] h = refl
    count_of-All p (x ∷ xs) h = ground (arith, count_of-All p xs h.1)

    All-tag :
        (P : ℕ × A → Type 0) (place : ℕ) (xs : List A)
        → All (λ x. P (place, x)) xs
        → All P (tag place xs)
    unfolding tag
    All-tag P place [] h = tt
    All-tag P place (x ∷ xs) h = (h.0, All-tag P place xs h.1)

    All-place_groups :
        (P : A → Type 0) (place : ℕ) (gs : List (List A))
        → All P (joined gs)
        → All (λ e. P e.1) (place_groups place gs)
    unfolding place_groups
    All-place_groups P place [] h = tt
    All-place_groups P place (g ∷ gs) h =
        let (hg, hgs) = All-split P g (joined gs) h in
        All-append (λ e. P e.1) (tag place g) (place_groups (place + length g) gs)
          (All-tag (λ e. P e.1) place g hg) (All-place_groups P (place + length g) gs hgs)

    -- The number of better ones, for a member of a run and for a member of a later one.
    ahead_in_run :
        (g rest : List A) (z : A)
        → All (λ y. better y z ≡ false) g × All (λ y. better z y ≡ true) rest
        → count_of (λ y. better y z) (g ++ rest) ≡ 0
    ahead_in_run g rest z h = omega (
      arith,
      count_of-append (λ y. better y z) g rest,
      count_of-none (λ y. better y z) g h.0,
      count_of-none (λ y. better y z) rest
          (All-mono rest (λ y e. ground (arith, ranking.irreflexive y, ranking.transitive y z y))
            h.1),
    )

    ahead_after_run :
        (g rest : List A) (z : A)
        → All (λ y. better y z ≡ true) g
        → count_of (λ y. better y z) (g ++ rest) ≡ length g + count_of (λ y. better y z) rest
    ahead_after_run g rest z h =
        omega (arith, count_of-append (λ y. better y z) g rest, count_of-All (λ y. better y z) g h)

    run_members :
        (g rest : List A)
        → IsRun g rest
        → All (λ z. All (λ y. better y z ≡ false) g × All (λ y. better z y ≡ true) rest) g
    run_members [] rest h = tt
    run_members (x ∷ xs) rest h = h

    abbrev HasPlace : ℕ → List A → ℕ × A → Type 0
    HasPlace place all e = e.0 ≡ place + count_of (λ y. better y e.1) all

    place_groups-HasPlace :
        (place : ℕ) (gs : List (List A))
        → AreRuns gs
        → All (HasPlace place (joined gs)) (place_groups place gs)
    unfolding place_groups
    place_groups-HasPlace place [] h = tt
    place_groups-HasPlace place (g ∷ gs) (run, runs) =
        let members = run_members g (joined gs) run in
        let behind =
          All-swap (λ z y. better z y ≡ true) g (joined gs) (All-mono g (λ z h. h.1) members) in
        let later =
          All-both (λ e. All (λ z. better z e.1 ≡ true) g) (HasPlace (place + length g) (joined gs))
            (place_groups (place + length g) gs)
            (All-place_groups (λ y. All (λ z. better z y ≡ true) g) (place + length g) gs behind)
            (place_groups-HasPlace (place + length g) gs runs) in
        All-append (HasPlace place (g ++ joined gs)) (tag place g)
          (place_groups (place + length g) gs)
          (All-tag (HasPlace place (g ++ joined gs)) place g
            (All-mono g (λ z h. omega (arith, ahead_in_run g (joined gs) z h)) members))
          (All-mono (place_groups (place + length g) gs)
            (λ e h. omega (arith, ahead_after_run g (joined gs) e.1 h.0, h.1)) later)

    -- A run and what comes after it, with one more element in front that no other is better than.
    extend_run :
        (x y : A) (ys rest : List A)
        → same x y ≡ true
        → All
            (λ z. All (λ w. better w z ≡ false) (y ∷ ys) × All (λ w. better z w ≡ true) rest)
            (y ∷ ys)
        → All (λ z. better z x ≡ false) (y ∷ ys)
        → All
            (λ z. All (λ w. better w z ≡ false) (x ∷ y ∷ ys) × All (λ w. better z w ≡ true) rest)
            (x ∷ y ∷ ys)
    extend_run x y ys rest e run below = (
      (
        (ranking.irreflexive x, below),
        All-mono rest (λ w h. ground (arith, ranking.same_above x y w e)) run.0.1,
      ),
      All-mono (y ∷ ys) (λ z h. ((ground (arith, h.0.0, ranking.same_above x y z e), h.0), h.1))
          run,
    )

    start-IsRun :
        (x y : A) (ys rest : List A)
        → same x y ≡ false
        → All
            (λ z. All (λ w. better w z ≡ false) (y ∷ ys) × All (λ w. better z w ≡ true) rest)
            (y ∷ ys)
        → better y x ≡ false
        → IsRun (x ∷ []) ((y ∷ ys) ++ rest)
    start-IsRun x y ys rest e run below = (
      (
        (ranking.irreflexive x, tt),
        All-append (λ w. better x w ≡ true) (y ∷ ys) rest
            (All-mono (y ∷ ys)
              (λ w h. ground (arith, ranking.total x y e below, ranking.weak x w y)) run.0.0)
            (All-mono rest (λ w h. ranking.transitive x y w (ranking.total x y e below) h) run.0.1),
      ),
      tt,
    )

    join_group-AreRuns :
        (x : A) (gs : List (List A))
        → AreRuns gs
        → All (λ z. better z x ≡ false) (joined gs)
        → AreRuns (join_group x gs) × (joined (join_group x gs) ≡ x ∷ joined gs)
    unfolding join_group
    join_group-AreRuns x [] h below = (((((ranking.irreflexive x, tt), tt), tt), tt), refl)
    join_group-AreRuns x ([] ∷ gs) h below = absurd h.0
    join_group-AreRuns x ((y ∷ ys) ∷ gs) h below = elim (Bool-cases (same x y)) [
      | inl e ↦ rw e (
        (
          extend_run x y ys (joined gs) e h.0
              (All-split (λ z. better z x ≡ false) (y ∷ ys) (joined gs) below).0,
          h.1,
        ),
        refl,
      )
      | inr e ↦ rw e ((start-IsRun x y ys (joined gs) e h.0 below.0, h), refl)
    ]

    groups-AreRuns :
        (xs : List A) → IsSortedBy better xs → AreRuns (groups xs) × (joined (groups xs) ≡ xs)
    unfolding groups
    groups-AreRuns [] h = (tt, refl)
    groups-AreRuns (x ∷ xs) h =
        let (runs, whole) = groups-AreRuns xs h.1 in
        let (runs', whole') = join_group-AreRuns x (groups xs) runs (rw whole h.0) in
        (runs', whole' ∙ ap (λ (l : List A). x ∷ l) whole)

    -- In a list in descending order, each element's place is one more than the number of better ones.
    pub places-count :
        (xs : List A)
        → IsSortedBy better xs
        → All (λ e. e.0 ≡ 1 + count_of (λ y. better y e.1) xs) (place_groups 1 (groups xs))
    places-count xs h =
        let (runs, whole) = groups-AreRuns xs h in
        rw whole at (place_groups-HasPlace 1 (groups xs) runs)

    count_of-tag :
        (p : A → Bool) (place : ℕ) (xs : List A)
        → count_of (λ e. p e.1) (tag place xs) ≡ count_of p xs
    unfolding tag count_of
    count_of-tag p place [] = refl
    count_of-tag p place (x ∷ xs) = omega (arith, count_of-tag p place xs)

    count_of-place_groups :
        (p : A → Bool) (place : ℕ) (gs : List (List A))
        → count_of (λ e. p e.1) (place_groups place gs) ≡ count_of p (joined gs)
    unfolding place_groups count_of
    count_of-place_groups p place [] = refl
    count_of-place_groups p place (g ∷ gs) = omega (
      arith,
      count_of-append (λ e. p e.1) (tag place g) (place_groups (place + length g) gs),
      count_of-tag p place g,
      count_of-place_groups p (place + length g) gs,
      count_of-append p g (joined gs),
    )

    -- Placing loses and adds no element.
    pub places-whole :
        (p : A → Bool) (xs : List A)
        → IsSortedBy better xs
        → count_of (λ e. p e.1) (place_groups 1 (groups xs)) ≡ count_of p xs
    places-whole p xs h =
        count_of-place_groups p 1 (groups xs) ∙ ap (count_of p) (groups-AreRuns xs h).1
