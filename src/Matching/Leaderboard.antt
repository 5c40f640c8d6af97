-- ===== src/Matching/Leaderboard.antt =====
-- The leaderboard of matching/models.py, without the excluded accounts as matching/service.py
-- answers it, and `is_ranking_excluded` of
-- shared/settings.py. `str.casefold` is the argument `casefold`.
use tag2now_be.Prelude.{
  ℕ, ◌+◌, ◌-◌, ◌≤◌, ◌≡◌, refl, String, Bool, true, not, Option, List, [], ◌∷◌, map, arith, ltb,
  str_eq, length, count_of, filter_by, any_of, All, All-mono, All-both, Bool-cases, inl, inr,
}
use tag2now_be.Matching.Rooms.{Rank}

pub record CharInfo : Type 0 where
  pub char_id : ℕ
  pub rank_info : Rank
  pub wins : ℕ
  pub losses : ℕ
  pub name : String

pub record GameInfo : Type 0 where
  pub main_char_info : CharInfo
  pub sub_char_info : CharInfo

pub record LeaderboardEntry : Type 0 where
  pub rank : ℕ
  pub np_id : String
  pub online_name : String
  pub score : ℕ
  pub pc_id : ℕ
  pub record_date : ℕ
  pub has_game_data : Bool
  pub comment : String
  pub player_info : Option GameInfo

pub record Leaderboard : Type 0 where
  pub total_records : ℕ
  pub last_sort_date : ℕ
  pub entries : List LeaderboardEntry

module _ (casefold : String → String) (ranking_excluded_npids : List String) where
  unfoldable pub is_ranking_excluded : String → Bool
  is_ranking_excluded npid =
      any_of (λ n. str_eq (casefold n) (casefold npid)) ranking_excluded_npids

  abbrev is_excluded : LeaderboardEntry → Bool
  is_excluded e = is_ranking_excluded e.np_id

  abbrev stays : LeaderboardEntry → Bool
  stays e = not (is_excluded e)

  abbrev rank_of : LeaderboardEntry → ℕ
  rank_of e = e.rank

  unfoldable pub excluded_ranks : List LeaderboardEntry → List ℕ
  excluded_ranks entries = map rank_of (filter_by is_excluded entries)

  abbrev moved_up : List ℕ → LeaderboardEntry → LeaderboardEntry
  moved_up ranks e = record e { rank = e.rank - count_of (λ r. ltb r e.rank) ranks }

  unfoldable pub without_excluded : Leaderboard → Leaderboard
  unfolding excluded_ranks
  without_excluded lb =
      let ranks = excluded_ranks lb.entries in
      record lb {
        total_records = lb.total_records - length ranks;
        entries = map (moved_up ranks) (filter_by stays lb.entries);
      }

  -- A place is one more than the number of entries in front.
  abbrev pub IsRanked : List LeaderboardEntry → List LeaderboardEntry → Type 0
  IsRanked all entries = All (λ e. e.rank ≡ 1 + count_of (λ f. ltb f.rank e.rank) all) entries

  excluded-count :
      (r : ℕ) (entries : List LeaderboardEntry)
      → count_of (λ x. ltb x r) (map rank_of (filter_by is_excluded entries))
          + count_of (λ f. ltb f.rank r) (filter_by stays entries)
        ≡ count_of (λ f. ltb f.rank r) entries
  unfolding count_of filter_by
  excluded-count r [] = refl
  excluded-count r (e ∷ entries) = ground (arith, excluded-count r entries)

  excluded-length :
      (entries : List LeaderboardEntry)
      → length (map rank_of (filter_by is_excluded entries)) + length (filter_by stays entries)
        ≡ length entries
  unfolding filter_by
  excluded-length [] = refl
  excluded-length (e ∷ entries) = ground (arith, excluded-length entries)

  All-filter_by :
      (P : LeaderboardEntry → Type 0) (entries : List LeaderboardEntry)
      → All P entries
      → All P (filter_by stays entries)
  unfolding filter_by
  All-filter_by P [] h = tt
  All-filter_by P (e ∷ entries) h = elim (Bool-cases (is_excluded e)) [
    | inl out ↦ rw out (All-filter_by P entries h.1)
    | inr stay ↦ rw stay (h.0, All-filter_by P entries h.1)
  ]

  moved-IsRanked :
      (entries : List LeaderboardEntry) (e : LeaderboardEntry)
      → e.rank ≡ 1 + count_of (λ f. ltb f.rank e.rank) entries
      → (moved_up (excluded_ranks entries) e).rank
        ≡ 1 + count_of (λ f. ltb f.rank e.rank) (filter_by stays entries)
  unfolding excluded_ranks
  moved-IsRanked entries e h = omega (arith, h, excluded-count e.rank entries)

  count_of-map_moved :
      (p q : LeaderboardEntry → Bool) (ranks : List ℕ) (es : List LeaderboardEntry)
      → All (λ f. p (moved_up ranks f) ≡ q f) es
      → count_of p (map (moved_up ranks) es) ≡ count_of q es
  unfolding count_of
  count_of-map_moved p q ranks [] h = refl
  count_of-map_moved p q ranks (e ∷ es) h = ground (arith, h.0, count_of-map_moved p q ranks es h.1)

  -- The number of entries in front grows with the rank, and strictly past an entry of the list.
  count-le :
      (a b : ℕ) (es : List LeaderboardEntry)
      → a ≤ b
      → count_of (λ f. ltb f.rank a) es ≤ count_of (λ f. ltb f.rank b) es
  unfolding count_of
  count-le a b [] h = omega arith
  count-le a b (e ∷ es) h = ground (arith, count-le a b es h)

  count-lt :
      (b : ℕ) (es : List LeaderboardEntry)
      → All
          (λ e.
            ltb e.rank b ≡ true
            → count_of (λ f. ltb f.rank e.rank) es + 1 ≤ count_of (λ f. ltb f.rank b) es)
          es
  unfolding count_of
  count-lt b [] = tt
  count-lt b (x ∷ es) = (
    (λ h. ground (arith, count-le x.rank b es (ground arith))),
    All-mono es (λ e k h. ground (arith, k h)) (count-lt b es),
  )

  same-order :
      (entries : List LeaderboardEntry) (e f : LeaderboardEntry)
      → e.rank ≡ 1 + count_of (λ g. ltb g.rank e.rank) entries
      → f.rank ≡ 1 + count_of (λ g. ltb g.rank f.rank) entries
      → (ltb f.rank e.rank ≡ true
          → count_of (λ g. ltb g.rank f.rank) (filter_by stays entries) + 1
            ≤ count_of (λ g. ltb g.rank e.rank) (filter_by stays entries))
      → ltb (moved_up (excluded_ranks entries) f).rank (moved_up (excluded_ranks entries) e).rank
        ≡ ltb f.rank e.rank
  same-order entries e f he hf strict = elim (Bool-cases (ltb f.rank e.rank)) [
    | inl front ↦
        ground (arith, moved-IsRanked entries e he, moved-IsRanked entries f hf, strict front)
    | inr behind ↦ ground (
      arith,
      moved-IsRanked entries e he,
      moved-IsRanked entries f hf,
      count-le e.rank f.rank (filter_by stays entries) (ground arith),
    )
  ]

  All-map_moved :
      (P : LeaderboardEntry → Type 0) (ranks : List ℕ) (es : List LeaderboardEntry)
      → All (λ e. P (moved_up ranks e)) es
      → All P (map (moved_up ranks) es)
  All-map_moved P ranks [] h = tt
  All-map_moved P ranks (e ∷ es) h = (h.0, All-map_moved P ranks es h.1)

  -- A leaderboard in which each rank is one more than the number of entries ranked in front is one
  -- again without the excluded accounts: those below move up past them, and ties stay tied.
  pub without_excluded-IsRanked :
      (lb : Leaderboard)
      → IsRanked lb.entries lb.entries
      → IsRanked (without_excluded lb).entries (without_excluded lb).entries
  unfolding without_excluded
  without_excluded-IsRanked lb h =
      let ranks = excluded_ranks lb.entries in
      let kept = filter_by stays lb.entries in
      let ranked =
        All-filter_by (λ e. e.rank ≡ 1 + count_of (λ f. ltb f.rank e.rank) lb.entries) lb.entries
          h in
      All-map_moved
        (λ e. e.rank ≡ 1 + count_of (λ f. ltb f.rank e.rank) (map (moved_up ranks) kept)) ranks kept
        (All-mono kept
          (λ e he.
            let new : LeaderboardEntry = moved_up ranks e in
            omega (
              arith,
              moved-IsRanked lb.entries e he,
              count_of-map_moved (λ f. ltb f.rank new.rank) (λ f. ltb f.rank e.rank) ranks kept
                  (All-mono kept (λ f both. same-order lb.entries e f he both.0 both.1)
                    (All-both (λ f. f.rank ≡ 1 + count_of (λ g. ltb g.rank f.rank) lb.entries)
                      (λ f.
                        ltb f.rank e.rank ≡ true
                        → count_of (λ g. ltb g.rank f.rank) kept + 1
                          ≤ count_of (λ g. ltb g.rank e.rank) kept)
                      kept ranked (count-lt e.rank kept))),
            ))
          ranked)

  length-map_moved :
      (ranks : List ℕ) (es : List LeaderboardEntry) → length (map (moved_up ranks) es) ≡ length es
  length-map_moved ranks [] = refl
  length-map_moved ranks (e ∷ es) = omega (arith, length-map_moved ranks es)

  -- The number of records counts the entries again, when it did before.
  pub without_excluded-total :
      (lb : Leaderboard)
      → lb.total_records ≡ length lb.entries
      → (without_excluded lb).total_records ≡ length (without_excluded lb).entries
  unfolding without_excluded excluded_ranks
  without_excluded-total lb h = omega (
    arith,
    h,
    excluded-length lb.entries,
    length-map_moved (excluded_ranks lb.entries) (filter_by stays lb.entries),
  )
