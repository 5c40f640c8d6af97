-- ===== src/Matching/Listing.antt =====
-- `_group_rooms_by_type` and `_fetch_rooms_all` of matching/service.py, of the rooms that the game
-- server has answered.
use tag2now_be.Prelude.{
  ℕ, ◌+◌, ◌≡◌, ◌∙◌, ap, refl, Bool, true, false, not, filter_by, Option, none, some, List, [], ◌∷◌,
  ◌++◌, arith, sort_by, count_of, count_of-append, count_of-sort_by, IsSortedBy, sort_by-IsSortedBy,
  Table,
}
use tag2now_be.Prelude.Int.{ℤ, pos, sub_ℕ, ltb_ℤ}
use tag2now_be.Matching.Rooms.{RoomType, player_match, rank_match, Rank, RoomInfo}
use tag2now_be.Matching.Tracker.{SnapshotRoom, MatchmakingTracker, update_and_get_phantoms}

-- The dict with its two keys.
pub record Grouped : Type 0 where
  pub player_rooms : List RoomInfo
  pub rank_rooms : List RoomInfo

abbrev add_to : RoomType → RoomInfo → Grouped → Grouped
add_to player_match room g = record g { player_rooms = room ∷ g.player_rooms }
add_to rank_match room g = record g { rank_rooms = room ∷ g.rank_rooms }

unfoldable pub group_rooms_by_type : List RoomInfo → Grouped
group_rooms_by_type [] = record { player_rooms = []; rank_rooms = [] }
group_rooms_by_type (room ∷ rooms) = add_to room.room_type room (group_rooms_by_type rooms)

abbrev rank_key_of : Option Rank → ℤ
rank_key_of none = sub_ℕ 0 1
rank_key_of (some r) = pos r.id

-- `r.rank_info.id if r.rank_info else -1`.
abbrev pub rank_key : RoomInfo → ℤ
rank_key r = rank_key_of r.rank_info

abbrev pub lower_rank : RoomInfo → RoomInfo → Bool
lower_rank x y = ltb_ℤ (rank_key x) (rank_key y)

unfoldable pub fetch_rooms_all :
    (Table SnapshotRoom → Table SnapshotRoom)
    → ℕ
    → ℕ
    → List RoomInfo
    → MatchmakingTracker
    → Grouped × MatchmakingTracker
fetch_rooms_all visit ttl now rooms tracker =
    let grouped = group_rooms_by_type rooms in
    let (phantom_rooms, tracker') =
      update_and_get_phantoms visit ttl now (grouped.player_rooms ++ grouped.rank_rooms) tracker in
    (
      record grouped { rank_rooms = sort_by lower_rank (grouped.rank_rooms ++ phantom_rooms) },
      tracker',
    )

abbrev pub is_player_match : RoomInfo → Bool
is_player_match room = elim room.room_type [ player_match ↦ true | rank_match ↦ false ]

player_rooms-group :
    (rooms : List RoomInfo)
    → (group_rooms_by_type rooms).player_rooms ≡ filter_by is_player_match rooms
unfolding group_rooms_by_type filter_by
player_rooms-group [] = refl
player_rooms-group (room ∷ rooms) = ground (arith, player_rooms-group rooms)

rank_rooms-group :
    (rooms : List RoomInfo)
    → (group_rooms_by_type rooms).rank_rooms ≡ filter_by (λ r. not (is_player_match r)) rooms
unfolding group_rooms_by_type filter_by
rank_rooms-group [] = refl
rank_rooms-group (room ∷ rooms) = ground (arith, rank_rooms-group rooms)

module _ (visit : Table SnapshotRoom → Table SnapshotRoom) (ttl now : ℕ) (rooms : List RoomInfo)
    (tracker : MatchmakingTracker) where
  abbrev fetched : Grouped
  fetched = (fetch_rooms_all visit ttl now rooms tracker).0

  abbrev pub phantoms : List RoomInfo
  phantoms =
      let grouped = group_rooms_by_type rooms in
      (update_and_get_phantoms visit ttl now (grouped.player_rooms ++ grouped.rank_rooms) tracker).0

  -- The player matches are listed as the server has answered them, in its order; the rank matches are
  -- the server's and the phantom rooms, each as often as there, and no other, by rank, those without
  -- one first.
  pub fetch_rooms_all-whole :
      (p : RoomInfo → Bool)
      → (fetched.player_rooms ≡ filter_by is_player_match rooms)
        × (count_of p fetched.rank_rooms
            ≡ count_of p (filter_by (λ r. not (is_player_match r)) rooms) + count_of p phantoms)
        × IsSortedBy lower_rank fetched.rank_rooms
  unfolding fetch_rooms_all
  fetch_rooms_all-whole p =
      let ranked = (group_rooms_by_type rooms).rank_rooms in
      let all_ranked = ranked ++ phantoms in
      (
        player_rooms-group rooms,
        count_of-sort_by p lower_rank all_ranked
            ∙ count_of-append p ranked phantoms
            ∙ ap (λ (l : List RoomInfo). count_of p l + count_of p phantoms)
                (rank_rooms-group rooms),
        sort_by-IsSortedBy lower_rank (λ x y h. ground arith) (λ x y z h k. ground arith)
            all_ranked,
      )
