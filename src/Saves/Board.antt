-- ===== src/Saves/Board.antt =====
-- `current_rank_board` of saves/domain.py: places and who is on the board.
use tag2now_be.Prelude.{
  ◌+◌, ◌≡◌, ◌∙◌, String, Bool, true, false, List, arith, sort_by, filter_by, All, All-mono,
  count_of, count_of-sort_by, IsSortedBy, IsSortedBy-mono, sort_by-IsSortedBy,
}
use tag2now_be.Places.{IsRanking, places-count, places-whole}
use tag2now_be.Saves.Domain.{
  PlayerRanks, stands_over, stands_level, has_char, listed_before, placed_players,
}

stands_over-IsRanking : IsRanking stands_over stands_level
stands_over-IsRanking = record {
  irreflexive = λ x. ground arith;
  total = λ x y h k. ground arith;
  same_above = λ x y z h. ground arith;
  same_below = λ x y z h. ground arith;
  weak = λ x y z h k. ground arith;
  transitive = λ x y z h k. ground arith;
}

module _ (casefold : String → String) (text_lt : String → String → Bool)
    (asym : (a b : String) → text_lt a b ≡ true → text_lt b a ≡ false)
    (trans : (a b c : String)
      → text_lt b a ≡ false
      → text_lt c b ≡ false
      → text_lt c a ≡ false) where
  listed_before_asym :
      (x y : PlayerRanks)
      → listed_before casefold text_lt y x ≡ true
      → listed_before casefold text_lt x y ≡ false
  listed_before_asym x y h = ground (arith, asym (casefold y.npid) (casefold x.npid))

  listed_before_trans :
      (x y z : PlayerRanks)
      → listed_before casefold text_lt y x ≡ false
      → listed_before casefold text_lt z y ≡ false
      → listed_before casefold text_lt z x ≡ false
  listed_before_trans x y z h k =
      ground (arith, trans (casefold x.npid) (casefold y.npid) (casefold z.npid))

  IsSortedBy-listed :
      (players : List PlayerRanks)
      → IsSortedBy stands_over (sort_by (listed_before casefold text_lt) players)
  IsSortedBy-listed players =
      IsSortedBy-mono (listed_before casefold text_lt) stands_over
        (sort_by (listed_before casefold text_lt) players) (λ x y h. ground arith)
        (sort_by-IsSortedBy (listed_before casefold text_lt) listed_before_asym listed_before_trans
          players)

  -- With texts in a strict order, a player's place on the board is one more than the number of players
  -- with a character who stand over them, so players who stand level share a place; and the board lists
  -- each player with a character as often as they are given, and no other.
  pub placed_players_places :
      (players : List PlayerRanks)
      → All
          (λ e. e.0 ≡ 1 + count_of (λ p. stands_over p e.1) (filter_by has_char players))
          (placed_players casefold text_lt players)
        × ((q : PlayerRanks → Bool)
            → count_of (λ e. q e.1) (placed_players casefold text_lt players)
              ≡ count_of q (filter_by has_char players))
  unfolding placed_players
  placed_players_places players =
      let ranked = filter_by has_char players in
      let sorted = sort_by (listed_before casefold text_lt) ranked in
      (
        All-mono (placed_players casefold text_lt players)
            (λ e h. omega (
              arith,
              h,
              count_of-sort_by (λ p. stands_over p e.1) (listed_before casefold text_lt) ranked,
            ))
            (places-count stands_over stands_level stands_over-IsRanking sorted
              (IsSortedBy-listed ranked)),
        λ q.
            places-whole stands_over stands_level stands_over-IsRanking q sorted
              (IsSortedBy-listed ranked)
            ∙ count_of-sort_by q (listed_before casefold text_lt) ranked,
      )
