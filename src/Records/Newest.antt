-- ===== src/Records/Newest.antt =====
-- Tables of matches newest first: what a filter by id leaves of them.
use tag2now_be.Prelude.{
  ℕ, zero, suc, ◌≡◌, ◌<◌, refl, Bool, true, false, ◌&&◌, Option, none, some, [], ◌∷◌, arith, Table,
  lookup, select, sort_by, insert_by, filter_by, drop, length, IsKeyed, All, All-mono, IsSortedBy,
  sort_by-IsSortedBy, if◌then◌else◌, inl, inr, Bool-cases,
}
use tag2now_be.Records.Rows.{MatchRow}
use tag2now_be.Records.Listing.{is_before, higher_id}

-- Newest first, no id twice.
abbrev pub IsNewestFirst : Table MatchRow → Type 0
IsNewestFirst [] = Unit
IsNewestFirst (x ∷ xs) = All (λ y. y.0 < x.0) xs × IsNewestFirst xs

insert_by-front :
    (x : ℕ × MatchRow) (xs : Table MatchRow)
    → All (λ y. higher_id y x ≡ false) xs
    → insert_by higher_id x xs ≡ x ∷ xs
unfolding insert_by
insert_by-front x [] h = refl
insert_by-front x (y ∷ xs) h = ground (arith, h.0)

module _ (p : ℕ × MatchRow → Bool) where
  All-filter_by {ℓ} :
      (P : ℕ × MatchRow → Type ℓ) (xs : Table MatchRow) → All P xs → All P (filter_by p xs)
  unfolding filter_by
  All-filter_by P [] h = tt
  All-filter_by P (x ∷ xs) h = elim (Bool-cases (p x)) [
    | inl e ↦ rw e (h.0, All-filter_by P xs h.1)
    | inr e ↦ rw e (All-filter_by P xs h.1)
  ]

  filter_by-insert_by :
      (x : ℕ × MatchRow) (xs : Table MatchRow)
      → IsSortedBy higher_id xs
      → filter_by p (insert_by higher_id x xs)
        ≡ (if p x then insert_by higher_id x (filter_by p xs) else filter_by p xs)
  unfolding filter_by insert_by
  filter_by-insert_by x [] sorted = ground arith
  filter_by-insert_by x (y ∷ xs) sorted = elim (Bool-cases (higher_id y x)) [
    | inl e ↦ ground (arith, filter_by-insert_by x xs sorted.1)
    | inr e ↦
        let front : All (λ z. higher_id z x ≡ false) xs =
          All-mono xs (λ z h. ground arith) sorted.0 in
        ground (
          arith,
          insert_by-front x (filter_by p xs) (All-filter_by (λ z. higher_id z x ≡ false) xs front),
        )
  ]

  pub filter_by-sort_by :
      (xs : Table MatchRow)
      → filter_by p (sort_by higher_id xs) ≡ sort_by higher_id (filter_by p xs)
  unfolding filter_by sort_by
  filter_by-sort_by [] = refl
  filter_by-sort_by (x ∷ xs) = ground (
    arith,
    filter_by-sort_by xs,
    filter_by-insert_by x (sort_by higher_id xs)
        (sort_by-IsSortedBy higher_id (λ a b h. ground arith) (λ a b c h k. ground arith) xs),
  )

pub select-filter_by :
    (p : ℕ → Bool) (q : MatchRow → Bool) (rows : Table MatchRow)
    → select (λ id row. p id && q row) rows ≡ filter_by (λ e. p e.0) (select (λ _. q) rows)
unfolding select filter_by
select-filter_by p q [] = refl
select-filter_by p q ((k, row) ∷ rows) = ground (arith, select-filter_by p q rows)

All-insert_below :
    (n : ℕ) (x : ℕ × MatchRow) (xs : Table MatchRow)
    → x.0 < n
    → All (λ z. z.0 < n) xs
    → All (λ z. z.0 < n) (insert_by higher_id x xs)
unfolding insert_by
All-insert_below n x [] h k = (h, tt)
All-insert_below n x (y ∷ xs) h k = elim (Bool-cases (higher_id y x)) [
  | inl e ↦ rw e (k.0, All-insert_below n x xs h k.1)
  | inr e ↦ rw e (h, k)
]

insert_by-IsNewestFirst :
    (x : ℕ × MatchRow) (xs : Table MatchRow)
    → lookup x.0 xs ≡ none
    → IsNewestFirst xs
    → IsNewestFirst (insert_by higher_id x xs)
unfolding insert_by
insert_by-IsNewestFirst x [] new h = (tt, tt)
insert_by-IsNewestFirst x (y ∷ xs) new h = elim (Bool-cases (higher_id y x)) [
  | inl e ↦ rw e (
    All-insert_below y.0 x xs (ground arith) h.0,
    insert_by-IsNewestFirst x xs (ground arith) h.1,
  )
  | inr e ↦ rw e ((ground arith, All-mono xs (λ z k. ground arith) h.0), h)
]

lookup-insert_by :
    (k : ℕ) (x : ℕ × MatchRow) (xs : Table MatchRow)
    → lookup k xs ≡ none
    → (x.0 ≡ k → ⊥)
    → lookup k (insert_by higher_id x xs) ≡ none
unfolding insert_by
lookup-insert_by k x [] h d = ground arith
lookup-insert_by k x (y ∷ xs) h d = ground (arith, lookup-insert_by k x xs)

lookup-sort_by :
    (k : ℕ) (xs : Table MatchRow) → lookup k xs ≡ none → lookup k (sort_by higher_id xs) ≡ none
unfolding sort_by
lookup-sort_by k [] h = refl
lookup-sort_by k (x ∷ xs) h =
    lookup-insert_by k x (sort_by higher_id xs) (lookup-sort_by k xs (ground arith))
      (λ e. ground arith)

pub sort_by-IsNewestFirst :
    (xs : Table MatchRow) → IsKeyed xs → IsNewestFirst (sort_by higher_id xs)
unfolding sort_by
sort_by-IsNewestFirst [] h = tt
sort_by-IsNewestFirst (x ∷ xs) h =
    insert_by-IsNewestFirst x (sort_by higher_id xs) (lookup-sort_by x.0 xs h.0)
      (sort_by-IsNewestFirst xs h.1)

unfoldable pub key_at : ℕ → Table MatchRow → Option ℕ
key_at n [] = none
key_at zero (x ∷ xs) = some x.0
key_at (suc n) (x ∷ xs) = key_at n xs

pub key_at-below :
    (b n k : ℕ) (xs : Table MatchRow) → All (λ y. y.0 < b) xs → key_at n xs ≡ some k → k < b
unfolding key_at
key_at-below b n k [] h e = absurd (ground arith)
key_at-below b zero k (x ∷ xs) h e = ground (arith, h.0)
key_at-below b (suc n) k (x ∷ xs) h e = key_at-below b n k xs h.1 e

pub key_at-some : (n : ℕ) (xs : Table MatchRow) → n < length xs → (k : ℕ) × (key_at n xs ≡ some k)
unfolding key_at
key_at-some n [] h = absurd (ground arith)
key_at-some zero (x ∷ xs) h = (x.0, refl)
key_at-some (suc n) (x ∷ xs) h = key_at-some n xs (ground arith)

filter_by-below :
    (b : ℕ) (xs : Table MatchRow)
    → All (λ y. y.0 < b) xs
    → filter_by (λ e. is_before (some b) e.0) xs ≡ xs
unfolding filter_by
filter_by-below b [] h = refl
filter_by-below b (x ∷ xs) h = ground (arith, h.0, filter_by-below b xs h.1)

-- What is left after a page, whose last match has the id `b`.
pub filter_by-drop :
    (n b : ℕ) (xs : Table MatchRow)
    → IsNewestFirst xs
    → key_at n xs ≡ some b
    → filter_by (λ e. is_before (some b) e.0) xs ≡ drop (suc n) xs
unfolding filter_by key_at
filter_by-drop n b [] h e = absurd (ground arith)
filter_by-drop zero b (x ∷ xs) h e =
    let same : x.0 ≡ b = ground arith in ground (arith, filter_by-below b xs (rw (← same) h.0))
filter_by-drop (suc n) b (x ∷ xs) h e =
    ground (arith, filter_by-drop n b xs h.1 e, key_at-below x.0 n b xs h.0 e)

pub filter_by-twice :
    (before : Option ℕ) (b : ℕ) (xs : Table MatchRow)
    → is_before before b ≡ true
    → filter_by (λ e. is_before (some b) e.0) (filter_by (λ e. is_before before e.0) xs)
      ≡ filter_by (λ e. is_before (some b) e.0) xs
unfolding filter_by
filter_by-twice before b [] h = refl
filter_by-twice none b (x ∷ xs) h = ground (arith, filter_by-twice none b xs h)
filter_by-twice (some c) b (x ∷ xs) h = ground (arith, filter_by-twice (some c) b xs h)
