-- ===== src/Saves/Filling.antt =====
-- Filling the current-rank views: the places that the grouping asks for are on the board.
use tag2now_be.Prelude.{
  ℕ, ◌≡◌, ◌≤◌, ◌∙◌, refl, sym, String, Bool, true, false, ◌&&◌, ◌||◌, some, List, [], ◌∷◌, map,
  arith, Table, lookup, sort_by, insert_by, filter_by, ltb, take, is_some, str_eq, eq_iff, All,
  All-mono, count_of, Bool-cases, inl, inr,
}
use tag2now_be.Prelude.Dict
use tag2now_be.Saves.Domain.{
  RankedChar, PlayerRanks, Holder, has_char, ranks_over, top_two, entry_of, placed_players,
  current_rank_board,
}
use tag2now_be.Saves.Board.{placed_players_places}
use tag2now_be.Saves.Played.{is_holder_rank}
use tag2now_be.Saves.Holders.{HasPlace, listed_at, holders_by_rank-listed}
use tag2now_be.Saves.Service.{with_top, add_places, places_of, fill_current_rank}

abbrev is_filled : List RankedChar → Bool
is_filled [] = false
is_filled (_ ∷ _) = true

insert_by-filled :
    (c : RankedChar) (chars : List RankedChar)
    → is_filled (take 2 (insert_by ranks_over c chars)) ≡ true
unfolding insert_by
insert_by-filled c [] = refl
insert_by-filled c (d ∷ chars) = ground arith

top_two-filled : (chars : List RankedChar) → is_filled (top_two chars) ≡ is_filled chars
unfolding top_two sort_by
top_two-filled [] = refl
top_two-filled (c ∷ chars) = insert_by-filled c (sort_by ranks_over chars)

has_char-filled :
    (chars : List RankedChar) → (elim chars [ [] ↦ false | _ ∷ _ ↦ true ]) ≡ is_filled chars
has_char-filled [] = refl
has_char-filled (c ∷ chars) = refl

with_top-has_char : (p : PlayerRanks) → has_char (with_top p) ≡ has_char p
with_top-has_char p =
    has_char-filled (top_two p.chars) ∙ top_two-filled p.chars ∙ sym (has_char-filled p.chars)

-- Each player with a character is one of those of that name.
count_of-own :
    (players : List PlayerRanks)
    → All
        (λ p. has_char p ≡ true → 1 ≤ count_of (λ x. str_eq x.npid p.npid && has_char x) players)
        players
unfolding count_of
count_of-own [] = tt
count_of-own (p ∷ players) = (
  λ h. ground (arith, eq_iff p.npid p.npid),
  All-mono players (λ x h k. ground (arith, h k)) (count_of-own players),
)

count_of-board :
    (npid : String) (players : List PlayerRanks)
    → count_of (λ x. str_eq x.npid npid) (filter_by has_char (map with_top players))
      ≡ count_of (λ x. str_eq x.npid npid && has_char x) players
unfolding count_of filter_by
count_of-board npid [] = refl
count_of-board npid (p ∷ players) = elim (Bool-cases (has_char p)) [
  | inl e ↦ rw (with_top-has_char p ∙ e, e) (ground (arith, count_of-board npid players))
  | inr e ↦ rw (with_top-has_char p ∙ e, e) (ground (arith, count_of-board npid players))
]

-- A name that the board has is in the dict of its places.
lookup-add_places :
    (npid : String) (places : Dict.Dict ℕ) (placed : List (ℕ × PlayerRanks))
    → (is_some (Dict.lookup npid places) || ltb 0 (count_of (λ e. str_eq e.1.npid npid) placed))
      ≡ true
    → is_some (Dict.lookup npid (add_places places (map entry_of placed))) ≡ true
unfolding add_places count_of
lookup-add_places npid places [] h = ground arith
lookup-add_places npid places ((place, p) ∷ placed) h =
    lookup-add_places npid (Dict.insert p.npid place places) placed
      (ground (arith, eq_iff p.npid npid, Dict.lookup-insert p.npid npid place places))

module _ (casefold : String → String) (text_lt : String → String → Bool)
    (asym : (a b : String) → text_lt a b ≡ true → text_lt b a ≡ false)
    (trans : (a b c : String)
      → text_lt b a ≡ false
      → text_lt c b ≡ false
      → text_lt c a ≡ false) where
  places_of-HasPlace :
      (players : List PlayerRanks)
      → All (HasPlace (places_of casefold text_lt (map with_top players))) players
  unfolding current_rank_board
  places_of-HasPlace players =
      let board = map with_top players in
      let counted = (placed_players_places casefold text_lt asym trans board).1 in
      All-mono players
        (λ p own has. lookup-add_places p.npid [] (placed_players casefold text_lt board) (
          ground
            (arith, own has, counted (λ x. str_eq x.npid p.npid), count_of-board p.npid players)))
        (count_of-own players)

  -- Filling the views raises no `KeyError`, with texts in a strict order: under each rank stand the
  -- players who play at it, in the server's order, with their places on the board of their two best
  -- characters.
  pub fill_current_rank-listed :
      (players : List PlayerRanks)
      → (t : Table (List Holder)) × ((fill_current_rank casefold text_lt players).1 ≡ some t)
        × ((rank : ℕ)
            → is_holder_rank rank ≡ true
            → lookup rank t
              ≡ some (listed_at rank (places_of casefold text_lt (map with_top players)) players))
  fill_current_rank-listed players =
      holders_by_rank-listed (places_of casefold text_lt (map with_top players)) players
        (places_of-HasPlace players)
