-- ===== src/Saves/Holders.antt =====
-- `holders_by_rank` of saves/domain.py against a direct reading of it, rank by rank.
use tag2now_be.Prelude.{
  ℕ, zero, suc, ◌+◌, ◌-◌, ◌≡◌, ◌∙◌, refl, sym, ap, true, false, ◌&&◌, Option, none, some, List, [],
  ◌∷◌, ◌++◌, arith, filter_by, Table, lookup, insert, is_some, ltb, leb, ◌==◌, if◌then◌else◌,
  get_or, IsKeyed, lookup-insert, All, Bool-cases, Option-cases, inl, inr,
}
use tag2now_be.Prelude.Dict
use tag2now_be.Saves.Domain.{
  RankedChar, PlayerRanks, Holder, has_char, first_holder_rank, end_holder_rank, played_ids_by_rank,
  holder_of, add_ranks, add_players, empty_ranks, holders_by_rank,
}
use tag2now_be.Saves.Played.{
  ids_of, is_holder_rank, played_at, unless_empty, lookup-played, played-range, played-IsKeyed,
}

abbrev pub own : PlayerRanks → ℕ → Option (List ℕ) → List Holder
own player place none = []
own player place (some ids) = holder_of player place ids ∷ []

abbrev holders_at : ℕ → Table (List Holder) → List Holder
holders_at rank by_rank = get_or (lookup rank by_rank) []

IsFull : Table (List Holder) → Type 0
IsFull by_rank = (rank : ℕ) → is_holder_rank rank ≡ true → is_some (lookup rank by_rank) ≡ true

append_assoc : (xs ys zs : List Holder) → (xs ++ ys) ++ zs ≡ xs ++ (ys ++ zs)
append_assoc [] ys zs = refl
append_assoc (x ∷ xs) ys zs = ap (λ l. x ∷ l) (append_assoc xs ys zs)

append_none : (xs : List Holder) → xs ++ [] ≡ xs
append_none [] = refl
append_none (x ∷ xs) = ap (λ l. x ∷ l) (append_none xs)

module _ (player : PlayerRanks) (places : Dict.Dict ℕ) (place : ℕ)
    (placed : Dict.lookup player.npid places ≡ some place) where
  -- Each rank that the player plays at gains one holder, at its end.
  add_ranks-own :
      (played : Table (List ℕ)) (by_rank : Table (List Holder))
      → All (λ e. is_holder_rank e.0 ≡ true) played
      → IsKeyed played
      → IsFull by_rank
      → (t : Table (List Holder)) × (add_ranks player places played by_rank ≡ some t)
        × IsFull t
        × ((rank : ℕ)
            → holders_at rank t ≡ holders_at rank by_rank ++ own player place (lookup rank played))
  unfolding add_ranks IsFull
  add_ranks-own [] by_rank ranges keyed full =
      (by_rank, refl, full, λ rank. sym (append_none (holders_at rank by_rank)))
  add_ranks-own ((r, ids) ∷ played) by_rank (range, ranges) (fresh, keyed) full =
      elim (Option-cases (lookup r by_rank)) [
        | inl missing ↦ absurd (ground (arith, full r range))
        | inr (holders, found) ↦
            let here = holders ++ (holder_of player place ids ∷ []) in
            let next = insert r here by_rank in
            let (t, e, whole, listed) =
              add_ranks-own played next ranges keyed
                (λ k h. ground (arith, full k h, lookup-insert r k here by_rank)) in
            (
              t,
              rw (placed, found) e,
              whole,
              λ rank. listed rank ∙ elim (Bool-cases (r == rank)) [
                | inl same ↦
                    let at : r ≡ rank = ground arith in
                    let written : lookup rank next ≡ some here =
                      rw (lookup-insert r rank here by_rank, same) refl in
                    let before : lookup rank by_rank ≡ some holders = rw (← at) found in
                    let absent : lookup rank played ≡ none = rw (← at) fresh in
                    rw (written, same, before, absent) (append_none here)
                | inr other ↦ rw (lookup-insert r rank here by_rank, other) refl
              ],
            )
      ]

-- A player with a character has a place on the board.
abbrev pub HasPlace : Dict.Dict ℕ → PlayerRanks → Type 0
HasPlace places player = has_char player ≡ true → is_some (Dict.lookup player.npid places) ≡ true

-- The holders of a rank, read off the players directly.
unfoldable pub listed_at : ℕ → Dict.Dict ℕ → List PlayerRanks → List Holder
listed_at rank places [] = []
listed_at rank places (player ∷ players) =
    own player (get_or (Dict.lookup player.npid places) 0)
      (unless_empty (played_at rank player.chars))
    ++ listed_at rank places players

empty-unless :
    (chars : List RankedChar) → (elim chars [ [] ↦ false | _ ∷ _ ↦ true ]) ≡ false → chars ≡ []
empty-unless [] h = refl
empty-unless (c ∷ chars) h = absurd (ground arith)

module _ (places : Dict.Dict ℕ) where
  add_player-own :
      (player : PlayerRanks) (by_rank : Table (List Holder))
      → HasPlace places player
      → IsFull by_rank
      → (t : Table (List Holder)) × (add_ranks player places
            (played_ids_by_rank player.chars)
            by_rank
          ≡ some t)
        × IsFull t
        × ((rank : ℕ)
            → holders_at rank t
              ≡ holders_at rank by_rank
                ++ own player
                    (get_or (Dict.lookup player.npid places) 0)
                    (unless_empty (played_at rank player.chars)))
  unfolding add_ranks played_ids_by_rank filter_by ids_of
  add_player-own player by_rank has full = elim (Option-cases (Dict.lookup player.npid places)) [
    | inl missing ↦
        let no_char : player.chars ≡ [] = empty-unless player.chars (ground arith) in
        (
          by_rank,
          rw no_char refl,
          full,
          λ rank. rw no_char (sym (append_none (holders_at rank by_rank))),
        )
    | inr (place, placed) ↦
        let (t, e, whole, listed) =
          add_ranks-own player places place placed (played_ids_by_rank player.chars) by_rank
            (played-range player.chars) (played-IsKeyed player.chars) full in
        (t, e, whole, λ rank. rw (placed, ← lookup-played rank player.chars) (listed rank))
  ]

  add_players-listed :
      (players : List PlayerRanks) (by_rank : Table (List Holder))
      → All (HasPlace places) players
      → IsFull by_rank
      → (t : Table (List Holder)) × (add_players places players by_rank ≡ some t)
        × IsFull t
        × ((rank : ℕ)
            → holders_at rank t ≡ holders_at rank by_rank ++ listed_at rank places players)
  unfolding add_players listed_at
  add_players-listed [] by_rank has full =
      (by_rank, refl, full, λ rank. sym (append_none (holders_at rank by_rank)))
  add_players-listed (player ∷ players) by_rank (has, rest) full =
      let (mid, e, whole, listed) = add_player-own player by_rank has full in
      let (t, e', whole', listed') = add_players-listed players mid rest whole in
      (
        t,
        rw e e',
        whole',
        λ rank.
            listed' rank
            ∙ ap (λ (l : List Holder). l ++ listed_at rank places players) (listed rank)
            ∙ append_assoc (holders_at rank by_rank) _ (listed_at rank places players),
      )

  lookup-empty_ranks :
      (rank start n : ℕ)
      → lookup rank (empty_ranks start n)
        ≡ (if leb start rank && ltb rank (start + n) then some [] else none)
  unfolding empty_ranks
  lookup-empty_ranks rank start zero = ground arith
  lookup-empty_ranks rank start (suc n) = ground (arith, lookup-empty_ranks rank (start + 1) n)

  -- When each player with a character has a place, the grouping raises no `KeyError`, and what it keeps
  -- under a rank are the players, in their order, who play at that rank, each with the characters they
  -- play there.
  pub holders_by_rank-listed :
      (players : List PlayerRanks)
      → All (HasPlace places) players
      → (t : Table (List Holder)) × (holders_by_rank players places ≡ some t)
        × ((rank : ℕ)
            → is_holder_rank rank ≡ true
            → lookup rank t ≡ some (listed_at rank places players))
  unfolding holders_by_rank IsFull
  holders_by_rank-listed players has =
      let start = empty_ranks first_holder_rank (end_holder_rank - first_holder_rank) in
      let begun : (rank : ℕ) → is_holder_rank rank ≡ true → lookup rank start ≡ some [] = λ rank h.
        ground (
          arith,
          lookup-empty_ranks rank first_holder_rank (end_holder_rank - first_holder_rank),
        ) in
      let (t, e, whole, listed) =
        add_players-listed players start has (λ rank h. ground (arith, begun rank h)) in
      (t, e, λ rank h. ground (arith, begun rank h, whole rank h, listed rank))
