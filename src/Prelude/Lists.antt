-- ===== src/Prelude/Lists.antt =====
-- Lists: predicates, counting, and a stable sort by an order test, for `ORDER BY` and
-- `sorted(…, key=…)`.
use Prim.Native.Nat.{ℕ, zero, suc, ◌+◌}
use mathlib.Core.Path.{◌≡◌, refl, ap}
use mathlib.Core.Logic.{inl, inr}
use mathlib.Core.Bool.{Bool, true, false, ◌||◌}
use mathlib.Core.List.{List, [], ◌∷◌, ◌++◌, map}
use native.Mathlib.Omega.{arith}
use tag2now_be.Prelude.Tests.{if◌then◌else◌, to_ℕ, Bool-cases}

module _ {ℓ} {A : Type ℓ} where
  abbrev pub All {κ} : (A → Type κ) → List A → Type κ
  All P [] = Unit
  All P (x ∷ xs) = P x × All P xs

  pub All-mono {κ μ} :
      {P : A → Type κ} {Q : A → Type μ} (xs : List A) → ((x : A) → P x → Q x) → All P xs → All Q xs
  All-mono [] f h = tt
  All-mono (x ∷ xs) f h = (f x h.0, All-mono xs f h.1)

  pub All-append {κ} : (P : A → Type κ) (xs ys : List A) → All P xs → All P ys → All P (xs ++ ys)
  All-append P [] ys hx hy = hy
  All-append P (x ∷ xs) ys hx hy = (hx.0, All-append P xs ys hx.1 hy)

  pub All-split {κ} : (P : A → Type κ) (xs ys : List A) → All P (xs ++ ys) → All P xs × All P ys
  All-split P [] ys h = (tt, h)
  All-split P (x ∷ xs) ys h = let (hx, hy) = All-split P xs ys h.1 in ((h.0, hx), hy)

  pub All-both {κ μ} :
      (P : A → Type κ) (Q : A → Type μ) (xs : List A)
      → All P xs
      → All Q xs
      → All (λ x. P x × Q x) xs
  All-both P Q [] hp hq = tt
  All-both P Q (x ∷ xs) hp hq = ((hp.0, hq.0), All-both P Q xs hp.1 hq.1)

  -- What holds of all pairs can be read from either list.
  All-none {κ} : (P : A → List A → Type κ) (ys : List A) → ((y : A) → P y []) → All (λ y. P y []) ys
  All-none P [] h = tt
  All-none P (y ∷ ys) h = (h y, All-none P ys h)

  pub All-swap {κ} :
      (R : A → A → Type κ) (xs ys : List A)
      → All (λ x. All (R x) ys) xs
      → All (λ y. All (λ x. R x y) xs) ys
  All-swap R [] ys h = All-none (λ y xs. All (λ x. R x y) xs) ys (λ y. tt)
  All-swap R (x ∷ xs) ys h = All-both (R x) (λ y. All (λ z. R z y) xs) ys h.0 (All-swap R xs ys h.1)

  abbrev pub length : List A → ℕ
  length [] = 0
  length (x ∷ xs) = suc (length xs)

  pub length-append : (xs ys : List A) → length (xs ++ ys) ≡ length xs + length ys
  length-append [] ys = omega arith
  length-append (x ∷ xs) ys = omega (arith, length-append xs ys)

  unfoldable pub filter_by : (A → Bool) → List A → List A
  filter_by p [] = []
  filter_by p (x ∷ xs) = let rest = filter_by p xs in if p x then x ∷ rest else rest

  unfoldable pub any_of : (A → Bool) → List A → Bool
  any_of p [] = false
  any_of p (x ∷ xs) = p x || any_of p xs

  abbrev pub take : ℕ → List A → List A
  take zero xs = []
  take (suc n) [] = []
  take (suc n) (x ∷ xs) = x ∷ take n xs

  abbrev pub drop : ℕ → List A → List A
  drop zero xs = xs
  drop (suc n) [] = []
  drop (suc n) (x ∷ xs) = drop n xs

  -- How many elements pass a test.
  unfoldable pub count_of : (A → Bool) → List A → ℕ
  count_of p [] = 0
  count_of p (x ∷ xs) = to_ℕ (p x) + count_of p xs

  pub count_of-append :
      (p : A → Bool) (xs ys : List A) → count_of p (xs ++ ys) ≡ count_of p xs + count_of p ys
  unfolding count_of
  count_of-append p [] ys = omega arith
  count_of-append p (x ∷ xs) ys = omega (arith, count_of-append p xs ys)

  -- `before y x` says that `y` has to stand in front of `x`.
  unfoldable pub insert_by : (A → A → Bool) → A → List A → List A
  insert_by before x [] = x ∷ []
  insert_by before x (y ∷ ys) = if before y x then y ∷ insert_by before x ys else x ∷ y ∷ ys

  unfoldable pub sort_by : (A → A → Bool) → List A → List A
  unfolding insert_by
  sort_by before [] = []
  sort_by before (x ∷ xs) = insert_by before x (sort_by before xs)

  pub count_of-insert_by :
      (p : A → Bool) (before : A → A → Bool) (x : A) (xs : List A)
      → count_of p (insert_by before x xs) ≡ to_ℕ (p x) + count_of p xs
  unfolding count_of insert_by
  count_of-insert_by p before x [] = refl
  count_of-insert_by p before x (y ∷ ys) = ground (arith, count_of-insert_by p before x ys)

  -- Sorting keeps how often each test passes, so it loses and adds nothing.
  pub count_of-sort_by :
      (p : A → Bool) (before : A → A → Bool) (xs : List A)
      → count_of p (sort_by before xs) ≡ count_of p xs
  unfolding count_of sort_by
  count_of-sort_by p before [] = refl
  count_of-sort_by p before (x ∷ xs) =
      omega (arith, count_of-sort_by p before xs, count_of-insert_by p before x (sort_by before xs))

  any_of-insert_by :
      (p : A → Bool) (before : A → A → Bool) (x : A) (xs : List A)
      → any_of p (insert_by before x xs) ≡ (p x || any_of p xs)
  unfolding any_of insert_by
  any_of-insert_by p before x [] = refl
  any_of-insert_by p before x (y ∷ ys) = ground (arith, any_of-insert_by p before x ys)

  pub any_of-sort_by :
      (p : A → Bool) (before : A → A → Bool) (xs : List A)
      → any_of p (sort_by before xs) ≡ any_of p xs
  unfolding any_of sort_by
  any_of-sort_by p before [] = refl
  any_of-sort_by p before (x ∷ xs) =
      ground (arith, any_of-sort_by p before xs, any_of-insert_by p before x (sort_by before xs))

  -- No element has to stand in front of an earlier one.
  abbrev pub IsSortedBy : (A → A → Bool) → List A → Type ℓ
  IsSortedBy before [] = Unit
  IsSortedBy before (x ∷ xs) = All (λ y. before y x ≡ false) xs × IsSortedBy before xs

  pub IsSortedBy-mono :
      (before coarse : A → A → Bool) (xs : List A)
      → ((x y : A) → before y x ≡ false → coarse y x ≡ false)
      → IsSortedBy before xs
      → IsSortedBy coarse xs
  IsSortedBy-mono before coarse [] f h = tt
  IsSortedBy-mono before coarse (x ∷ xs) f h =
      (All-mono xs (f x) h.0, IsSortedBy-mono before coarse xs f h.1)

  module _ (before : A → A → Bool) where
    All-insert_by {κ} :
        (P : A → Type κ) (x : A) (xs : List A) → P x → All P xs → All P (insert_by before x xs)
    unfolding insert_by
    All-insert_by P x [] px h = (px, tt)
    All-insert_by P x (y ∷ ys) px h = elim (Bool-cases (before y x)) [
      | inl e ↦ rw e (h.0, All-insert_by P x ys px h.1)
      | inr e ↦ rw e (px, h)
    ]

    pub All-sort_by {κ} : (P : A → Type κ) (xs : List A) → All P xs → All P (sort_by before xs)
    unfolding sort_by
    All-sort_by P [] h = tt
    All-sort_by P (x ∷ xs) h = All-insert_by P x (sort_by before xs) h.0 (All-sort_by P xs h.1)

    All-uninsert_by {κ} :
        (P : A → Type κ) (x : A) (xs : List A) → All P (insert_by before x xs) → P x × All P xs
    unfolding insert_by
    All-uninsert_by P x [] h = h
    All-uninsert_by P x (y ∷ ys) h = elim (Bool-cases (before y x)) [
      | inl e ↦
          let whole = rw e at h in
          let (px, rest) = All-uninsert_by P x ys whole.1 in (px, (whole.0, rest))
      | inr e ↦ rw e at h
    ]

    -- What holds of the sorted elements holds of the elements.
    pub All-unsort_by {κ} : (P : A → Type κ) (xs : List A) → All P (sort_by before xs) → All P xs
    unfolding sort_by
    All-unsort_by P [] h = tt
    All-unsort_by P (x ∷ xs) h =
        let (px, rest) = All-uninsert_by P x (sort_by before xs) h in (px, All-unsort_by P xs rest)

    -- An order in which `before` excludes its converse, and "not before" composes, is kept sorted.
    module _ (asym : (x y : A) → before y x ≡ true → before x y ≡ false)
        (trans : (x y z : A) → before y x ≡ false → before z y ≡ false → before z x ≡ false) where
      All-after :
          (x y : A) (ys : List A)
          → before y x ≡ false
          → All (λ z. before z y ≡ false) ys
          → All (λ z. before z x ≡ false) ys
      All-after x y [] e h = tt
      All-after x y (z ∷ zs) e h = (trans x y z e h.0, All-after x y zs e h.1)

      insert_by-IsSortedBy :
          (x : A) (xs : List A) → IsSortedBy before xs → IsSortedBy before (insert_by before x xs)
      unfolding insert_by
      insert_by-IsSortedBy x [] h = (tt, tt)
      insert_by-IsSortedBy x (y ∷ ys) h = elim (Bool-cases (before y x)) [
        | inl e ↦ rw e (
          All-insert_by (λ z. before z y ≡ false) x ys (asym x y e) h.0,
          insert_by-IsSortedBy x ys h.1,
        )
        | inr e ↦ rw e ((e, All-after x y ys e h.0), h)
      ]

      pub sort_by-IsSortedBy : (xs : List A) → IsSortedBy before (sort_by before xs)
      unfolding sort_by
      sort_by-IsSortedBy [] = tt
      sort_by-IsSortedBy (x ∷ xs) =
          insert_by-IsSortedBy x (sort_by before xs) (sort_by-IsSortedBy xs)

module _ {A B : Type 0} (f : A → B) where
  pub All-map : (P : B → Type 0) (xs : List A) → All (λ x. P (f x)) xs → All P (map f xs)
  All-map P [] h = tt
  All-map P (x ∷ xs) h = (h.0, All-map P xs h.1)

  pub count_of-map :
      (p : B → Bool) (xs : List A) → count_of p (map f xs) ≡ count_of (λ x. p (f x)) xs
  unfolding count_of
  count_of-map p [] = refl
  count_of-map p (x ∷ xs) = ap (λ (n : ℕ). to_ℕ (p (f x)) + n) (count_of-map p xs)

  pub IsSortedBy-map :
      (before : B → B → Bool) (xs : List A)
      → IsSortedBy (λ x y. before (f x) (f y)) xs
      → IsSortedBy before (map f xs)
  IsSortedBy-map before [] h = tt
  IsSortedBy-map before (x ∷ xs) h =
      (All-map (λ y. before y (f x) ≡ false) xs h.0, IsSortedBy-map before xs h.1)
