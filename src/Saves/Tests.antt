-- ===== src/Saves/Tests.antt =====
-- The boards of the saves at concrete inputs, and their theorems there.
use tag2now_be.Prelude.{
  ℕ, ◌+◌, ◌≡◌, refl, String, Bool, true, false, some, List, [], ◌∷◌, Table, lookup, filter_by,
  count_of, map, All,
}
use tag2now_be.Saves.Domain.{RankedChar, PlayerRanks, Holder, has_char, stands_over, placed_players}
use tag2now_be.Saves.Board.{placed_players_places}
use tag2now_be.Saves.Played.{is_holder_rank}
use tag2now_be.Saves.Holders.{listed_at}
use tag2now_be.Saves.Service.{with_top, places_of, fill_current_rank}
use tag2now_be.Saves.Filling.{fill_current_rank-listed}

abbrev as_is : String → String
as_is text = text

-- An order in which no text stands before another.
abbrev no_lt : String → String → Bool
no_lt a b = false

abbrev char : ℕ → ℕ → ℕ → RankedChar
char id rank wins = record {
  id = id;
  rank = rank;
  points = 100;
  streak = 0;
  wins = wins;
  losses = 0;
}

abbrev players : List PlayerRanks
players =
    record {
      npid = "ann";
      saved_utc = 1;
      account_rank = 20;
      chars = char 3 20 5 ∷ char 4 18 0 ∷ char 5 20 2 ∷ [];
    }
    ∷ record { npid = "bob"; saved_utc = 2; account_rank = 22; chars = char 3 22 1 ∷ [] }
    ∷ record { npid = "cat"; saved_utc = 3; account_rank = 0; chars = [] }
    ∷ []

placed_players_places_example :
    All
      (λ e. e.0 ≡ 1 + count_of (λ p. stands_over p e.1) (filter_by has_char players))
      (placed_players as_is no_lt players)
    × ((q : PlayerRanks → Bool)
        → count_of (λ e. q e.1) (placed_players as_is no_lt players)
          ≡ count_of q (filter_by has_char players))
placed_players_places_example =
    placed_players_places as_is no_lt (λ a b h. refl) (λ a b c h k. refl) players

fill_current_rank-listed_example :
    (t : Table (List Holder)) × ((fill_current_rank as_is no_lt players).1 ≡ some t)
    × ((rank : ℕ)
        → is_holder_rank rank ≡ true
        → lookup rank t
          ≡ some (listed_at rank (places_of as_is no_lt (map with_top players)) players))
fill_current_rank-listed_example =
    fill_current_rank-listed as_is no_lt (λ a b h. refl) (λ a b c h k. refl) players
