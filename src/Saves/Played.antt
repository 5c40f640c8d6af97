-- ===== src/Saves/Played.antt =====
-- `played_ids_by_rank` of saves/domain.py: the ids under each rank.
use tag2now_be.Prelude.{
  ℕ, ◌≡◌, ◌⊎◌, get_or, ◌∙◌, refl, sym, ap, Bool, true, ◌&&◌, Option, none, some, List, [], ◌∷◌,
  ◌++◌, arith, Table, lookup, insert, filter_by, ltb, leb, ◌==◌, if◌then◌else◌, IsKeyed,
  insert-IsKeyed, lookup-insert, All, All-lookup, Bool-cases, inl, inr,
}
use tag2now_be.Saves.Domain.{
  RankedChar, first_holder_rank, end_holder_rank, holds_its_rank, add_played, played_ids_by_rank,
}

append_assoc : (xs ys zs : List ℕ) → (xs ++ ys) ++ zs ≡ xs ++ (ys ++ zs)
append_assoc [] ys zs = refl
append_assoc (x ∷ xs) ys zs = ap (λ l. x ∷ l) (append_assoc xs ys zs)

-- The ids of the characters that are of a rank, in their order.
unfoldable pub ids_of : ℕ → List RankedChar → List ℕ
ids_of rank [] = []
ids_of rank (c ∷ chars) =
    let rest = ids_of rank chars in if c.rank == rank then c.id ∷ rest else rest

abbrev pub unless_empty : List ℕ → Option (List ℕ)
unless_empty [] = none
unless_empty (i ∷ ids) = some (i ∷ ids)

abbrev more : Option (List ℕ) → List ℕ → Option (List ℕ)
more none ids = unless_empty ids
more (some old) ids = some (old ++ ids)

append_none : (xs : List ℕ) → xs ++ [] ≡ xs
append_none [] = refl
append_none (x ∷ xs) = ap (λ l. x ∷ l) (append_none xs)

pub List-cases : (xs : List ℕ) → (xs ≡ []) ⊎ ((i : ℕ) × (is : List ℕ) × (xs ≡ i ∷ is))
List-cases [] = inl refl
List-cases (i ∷ is) = inr (i, is, refl)

more-none : (o : Option (List ℕ)) → more o [] ≡ o
more-none none = refl
more-none (some xs) = ap some (append_none xs)

more-added :
    (o : Option (List ℕ)) (id : ℕ) (ids : List ℕ)
    → more (some (get_or o [] ++ (id ∷ []))) ids ≡ more o (id ∷ ids)
more-added none id ids = refl
more-added (some xs) id ids = ap some (append_assoc xs (id ∷ []) ids)

lookup-add_played :
    (rank : ℕ) (played : Table (List ℕ)) (chars : List RankedChar)
    → lookup rank (add_played played chars) ≡ more (lookup rank played) (ids_of rank chars)
unfolding add_played ids_of
lookup-add_played rank played [] = sym (more-none (lookup rank played))
lookup-add_played rank played (c ∷ chars) =
    let ids = get_or (lookup c.rank played) [] ++ (c.id ∷ []) in
    let added = insert c.rank ids played in
    lookup-add_played rank added chars ∙ elim (Bool-cases (c.rank == rank)) [
      | inl same ↦
          let at : c.rank ≡ rank = ground arith in
          let found : lookup rank added ≡ some ids =
            rw (lookup-insert c.rank rank ids played, same) refl in
          rw (found, same, at) (more-added (lookup rank played) c.id (ids_of rank chars))
      | inr other ↦ rw (lookup-insert c.rank rank ids played, other) refl
    ]

add_played-IsKeyed :
    (played : Table (List ℕ)) (chars : List RankedChar)
    → IsKeyed played
    → IsKeyed (add_played played chars)
unfolding add_played
add_played-IsKeyed played [] h = h
add_played-IsKeyed played (c ∷ chars) h =
    let ids = get_or (lookup c.rank played) [] ++ (c.id ∷ []) in
    add_played-IsKeyed (insert c.rank ids played) chars (insert-IsKeyed c.rank ids played h)

-- The characters that a player plays at a rank.
abbrev pub played_at : ℕ → List RankedChar → List ℕ
played_at rank chars = ids_of rank (filter_by holds_its_rank chars)

abbrev pub is_holder_rank : ℕ → Bool
is_holder_rank rank = leb first_holder_rank rank && ltb rank end_holder_rank

ids_of-range :
    (rank i : ℕ) (is : List ℕ) (chars : List RankedChar)
    → played_at rank chars ≡ i ∷ is
    → is_holder_rank rank ≡ true
unfolding filter_by ids_of holds_its_rank
ids_of-range rank i is [] e = absurd (ground arith)
ids_of-range rank i is (c ∷ chars) e = elim (Bool-cases (holds_its_rank c)) [
  | inl held ↦ elim (Bool-cases (c.rank == rank)) [
    | inl same ↦ ground arith
    | inr other ↦ ids_of-range rank i is chars (ground arith)
  ]
  | inr idle ↦ ids_of-range rank i is chars (ground arith)
]

pub lookup-played :
    (rank : ℕ) (chars : List RankedChar)
    → lookup rank (played_ids_by_rank chars) ≡ unless_empty (played_at rank chars)
unfolding played_ids_by_rank
lookup-played rank chars = lookup-add_played rank [] (filter_by holds_its_rank chars)

pub played-range :
    (chars : List RankedChar) → All (λ e. is_holder_rank e.0 ≡ true) (played_ids_by_rank chars)
unfolding played_ids_by_rank
played-range chars =
    All-lookup (λ e. is_holder_rank e.0 ≡ true) (played_ids_by_rank chars)
      (add_played-IsKeyed [] (filter_by holds_its_rank chars) tt)
      (λ k ids e. elim (List-cases (played_at k chars)) [
        | inl none_there ↦ absurd (ground (arith, lookup-played k chars))
        | inr (i, is, there) ↦ ids_of-range k i is chars there
      ])

pub played-IsKeyed : (chars : List RankedChar) → IsKeyed (played_ids_by_rank chars)
unfolding played_ids_by_rank
played-IsKeyed chars = add_played-IsKeyed [] (filter_by holds_its_rank chars) tt
