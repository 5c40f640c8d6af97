-- ===== src/Saves/Service.antt =====
-- saves/service.py: the current-rank board and its holders. What `read_ranks` of the save server
-- answers and the account names that settings exclude are arguments; the cached views are passed on
-- as they were filled.
use tag2now_be.Prelude.{
  ℕ, String, Bool, not, ◌&&◌, ◌||◌, Option, some, List, [], ◌∷◌, map, Table, sort_by, filter_by,
  any_of, take, length, ltb, ◌==◌, str_eq,
}
use tag2now_be.Prelude.Dict
use tag2now_be.Time.{Instant}
use tag2now_be.Saves.Domain.{
  PlayerRanks, Holder, BoardEntry, saved_within, top_two, holders_by_rank, current_rank_board,
}

-- `{**p, "chars": top_two(p["chars"])}`.
abbrev pub with_top : PlayerRanks → PlayerRanks
with_top player = record player { chars = top_two player.chars }

-- `{e["username"]: e["rank"] for e in …}`, over the entries that are in the dict already.
unfoldable pub add_places : Dict.Dict ℕ → List BoardEntry → Dict.Dict ℕ
add_places places [] = places
add_places places (e ∷ entries) = add_places (Dict.insert e.username e.rank places) entries

module _ (casefold : String → String) (text_lt : String → String → Bool) where
  -- `is_ranking_excluded` of shared/settings.py.
  abbrev pub is_ranking_excluded : List String → String → Bool
  is_ranking_excluded excluded npid = any_of (λ n. str_eq (casefold n) (casefold npid)) excluded

  -- `_without_excluded`.
  abbrev pub without_excluded {ℓ} : {A : Type ℓ} → (A → String) → List String → List A → List A
  without_excluded npid excluded players =
      filter_by (λ p. not (is_ranking_excluded excluded (npid p))) players

  abbrev pub places_of : List PlayerRanks → Dict.Dict ℕ
  places_of board = add_places [] (current_rank_board casefold text_lt board)

  -- `_fill_current_rank_cache`: both views of the saves, `none` where the grouping raises.
  abbrev pub fill_current_rank : List PlayerRanks → List PlayerRanks × Option (Table (List Holder))
  fill_current_rank players =
      let board = map with_top players in (board, holders_by_rank players (places_of board))

  pub record Leaderboard : Type 0 where
    pub total : ℕ
    pub entries : List BoardEntry

  unfoldable pub get_current_rank_leaderboard :
      List String → ℕ → Option ℕ → Instant → List PlayerRanks → Leaderboard
  unfolding saved_within
  get_current_rank_leaderboard excluded top days now players =
      let found =
        saved_within (λ p. p.saved_utc) days now
          (without_excluded (λ p. p.npid) excluded players) in
      let board = current_rank_board casefold text_lt found in
      record { total = length board; entries = take top board }

  -- The key `(-place, casefold(npid))`.
  abbrev pub lower_first : Holder → Holder → Bool
  lower_first x y =
      ltb y.place x.place || (x.place == y.place && text_lt (casefold x.npid) (casefold y.npid))

  pub record Holders : Type 0 where
    pub rank : ℕ
    pub total : ℕ
    pub entries : List Holder

  unfoldable pub get_current_rank_holders :
      List String → (rank top days : ℕ) → Instant → List Holder → Holders
  unfolding saved_within
  get_current_rank_holders excluded rank top days now holders =
      let recent =
        saved_within (λ h. h.saved_utc) (some days) now
          (without_excluded (λ h. h.npid) excluded holders) in
      let found = sort_by lower_first recent in
      record { rank = rank; total = length found; entries = take top found }
