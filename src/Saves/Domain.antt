-- ===== src/Saves/Domain.antt =====
-- saves/domain.py. `saved_utc` is the instant that its text stands for. The names of characters, ranks
-- and tiers, which the code passes on unread, are left out. Python's case folding and its order of
-- texts are the arguments `casefold` and `text_lt`.
use tag2now_be.Prelude.{
  ℕ, zero, suc, ◌+◌, ◌-◌, ◌*◌, String, Bool, true, false, not, ◌&&◌, ◌||◌, Option, none, some, List,
  [], ◌∷◌, ◌++◌, map, Table, lookup, insert, sort_by, filter_by, take, get_or, ltb, leb, ◌==◌,
}
use tag2now_be.Prelude.Dict
use tag2now_be.Time.{Instant, day}
use tag2now_be.Places.{groups, place_groups}

pub record RankedChar : Type 0 where
  pub id : ℕ
  pub rank : ℕ
  pub points : ℕ
  pub streak : ℕ
  pub wins : ℕ
  pub losses : ℕ

pub record PlayerRanks : Type 0 where
  pub npid : String
  pub saved_utc : Instant
  pub account_rank : ℕ
  pub chars : List RankedChar

pub record Holder : Type 0 where
  pub npid : String
  pub saved_utc : Instant
  pub account_rank : ℕ
  pub place : ℕ
  pub chars : List ℕ

-- `HOLDER_RANKS`.
abbrev pub first_holder_rank : ℕ
first_holder_rank = 10

abbrev pub end_holder_rank : ℕ
end_holder_rank = 43

module _ {A : Type 0} (saved_at : A → Instant) where
  unfoldable pub saved_within : Option ℕ → Instant → List A → List A
  saved_within none now players = players
  saved_within (some days) now players = filter_by (λ p. leb now (saved_at p + days * day)) players

-- The key `(rank, points)`, in reverse.
abbrev pub ranks_over : RankedChar → RankedChar → Bool
ranks_over x y = ltb y.rank x.rank || (x.rank == y.rank && ltb y.points x.points)

unfoldable pub top_two : List RankedChar → List RankedChar
top_two chars = take 2 (sort_by ranks_over chars)

unfoldable pub holds_its_rank : RankedChar → Bool
holds_its_rank char =
    not (char.wins == 0 && char.losses == 0)
    && leb first_holder_rank char.rank
    && ltb char.rank end_holder_rank

abbrev ids_at : ℕ → Table (List ℕ) → List ℕ
ids_at rank played = get_or (lookup rank played) []

-- `played.setdefault(c["rank"], []).append(c["id"])` for each of the characters.
unfoldable pub add_played : Table (List ℕ) → List RankedChar → Table (List ℕ)
add_played played [] = played
add_played played (c ∷ chars) =
    add_played (insert c.rank (ids_at c.rank played ++ (c.id ∷ [])) played) chars

unfoldable pub played_ids_by_rank : List RankedChar → Table (List ℕ)
unfolding add_played
played_ids_by_rank chars = add_played [] (filter_by holds_its_rank chars)

abbrev pub holder_of : PlayerRanks → ℕ → List ℕ → Holder
holder_of player place ids = record {
  npid = player.npid;
  saved_utc = player.saved_utc;
  account_rank = player.account_rank;
  place = place;
  chars = ids;
}

-- `by_rank[rank].append(…)`, with the `KeyError` of a missing rank or place as `none`.
abbrev append_holder :
    PlayerRanks
    → Option ℕ
    → ℕ
    → List ℕ
    → Table (List Holder)
    → Option (List Holder)
    → Option (Table (List Holder))
append_holder player none rank ids by_rank _ = none
append_holder player (some place) rank ids by_rank none = none
append_holder player (some place) rank ids by_rank (some holders) =
    some (insert rank (holders ++ (holder_of player place ids ∷ [])) by_rank)

abbrev or_none {ℓ κ} : {A : Type ℓ} {B : Type κ} → Option A → (A → Option B) → Option B
or_none none f = none
or_none (some a) f = f a

unfoldable pub add_ranks :
    PlayerRanks → Dict.Dict ℕ → Table (List ℕ) → Table (List Holder) → Option (Table (List Holder))
add_ranks player places [] by_rank = some by_rank
add_ranks player places ((rank, ids) ∷ played) by_rank =
    or_none
      (append_holder player (Dict.lookup player.npid places) rank ids by_rank (lookup rank by_rank))
      (add_ranks player places played)

unfoldable pub add_players :
    Dict.Dict ℕ → List PlayerRanks → Table (List Holder) → Option (Table (List Holder))
unfolding add_ranks played_ids_by_rank
add_players places [] by_rank = some by_rank
add_players places (player ∷ players) by_rank =
    or_none (add_ranks player places (played_ids_by_rank player.chars) by_rank)
      (add_players places players)

-- `{rank: [] for rank in HOLDER_RANKS}`, from `rank` on for `n` ranks.
unfoldable pub empty_ranks : ℕ → ℕ → Table (List Holder)
empty_ranks rank zero = []
empty_ranks rank (suc n) = (rank, []) ∷ empty_ranks (rank + 1) n

unfoldable pub holders_by_rank : List PlayerRanks → Dict.Dict ℕ → Option (Table (List Holder))
unfolding add_players empty_ranks
holders_by_rank players places =
    add_players places players (empty_ranks first_holder_rank (end_holder_rank - first_holder_rank))

-- The board's character that a player does not have, below any rank: ranks and points one up.
abbrev char_key : List RankedChar → ℕ × ℕ
char_key [] = (0, 0)
char_key (c ∷ _) = (c.rank + 1, c.points + 1)

abbrev rest_of : List RankedChar → List RankedChar
rest_of [] = []
rest_of (c ∷ cs) = cs

-- The ranks and then the points of a player's two characters, as `_standing` compares them.
pub record Standing : Type 0 where
  pub first_rank : ℕ
  pub second_rank : ℕ
  pub first_points : ℕ
  pub second_points : ℕ

unfoldable pub standing : PlayerRanks → Standing
standing player = record {
  first_rank = (char_key player.chars).0;
  second_rank = (char_key (rest_of player.chars)).0;
  first_points = (char_key player.chars).1;
  second_points = (char_key (rest_of player.chars)).1;
}

-- `_standing` sorts ascending by the negated numbers.
abbrev pub is_over : Standing → Standing → Bool
is_over x y =
    ltb y.first_rank x.first_rank
    || (x.first_rank == y.first_rank
        && (ltb y.second_rank x.second_rank
            || (x.second_rank == y.second_rank
                && (ltb y.first_points x.first_points
                    || (x.first_points == y.first_points && ltb y.second_points x.second_points)))))

abbrev pub is_level : Standing → Standing → Bool
is_level x y =
    x.first_rank == y.first_rank
    && x.second_rank == y.second_rank
    && x.first_points == y.first_points
    && x.second_points == y.second_points

abbrev pub stands_over : PlayerRanks → PlayerRanks → Bool
stands_over x y = is_over (standing x) (standing y)

abbrev pub stands_level : PlayerRanks → PlayerRanks → Bool
stands_level x y = is_level (standing x) (standing y)

abbrev pub has_char : PlayerRanks → Bool
has_char player = elim player.chars [ [] ↦ false | _ ∷ _ ↦ true ]

pub record BoardEntry : Type 0 where
  pub rank : ℕ
  pub username : String
  pub saved_at : Instant
  pub account_rank : ℕ
  pub chars : List RankedChar

abbrev pub entry_of : ℕ × PlayerRanks → BoardEntry
entry_of (place, player) = record {
  rank = place;
  username = player.npid;
  saved_at = player.saved_utc;
  account_rank = player.account_rank;
  chars = player.chars;
}

module _ (casefold : String → String) (text_lt : String → String → Bool) where
  -- The key `(_standing(p), p["npid"].casefold())`.
  abbrev pub listed_before : PlayerRanks → PlayerRanks → Bool
  listed_before x y =
      stands_over x y || (stands_level x y && text_lt (casefold x.npid) (casefold y.npid))

  unfoldable pub placed_players : List PlayerRanks → List (ℕ × PlayerRanks)
  placed_players players =
      place_groups stands_over stands_level 1
        (groups stands_over stands_level (sort_by listed_before (filter_by has_char players)))

  unfoldable pub current_rank_board : List PlayerRanks → List BoardEntry
  current_rank_board players = map entry_of (placed_players players)
