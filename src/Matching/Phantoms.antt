-- ===== src/Matching/Phantoms.antt =====
-- Who is searching after `update_and_get_phantoms` of matching/matchmaking_tracker.py.
use tag2now_be.Prelude.{
  ℕ, ◌≡◌, refl, String, Bool, true, false, not, ◌&&◌, ◌||◌, Option, some, List, [], ◌∷◌, map, arith,
  Table, is_some, any_of, All, All-mono, All-both, str_eq, Option-cases, inl, inr,
}
use tag2now_be.Prelude.Dict
use tag2now_be.Prelude.Dict.{Dict}
use tag2now_be.Matching.Rooms.{
  RoomType, player_match, rank_match, Rank, RoomUser, RoomInfo, phantom,
}
use tag2now_be.Matching.Players.{
  IsValid, Named, send_rooms-IsValid, pop_rooms-IsValid, searching_after-IsValid,
}
use tag2now_be.Matching.Tracker.{
  SnapshotRoom, SearchingPlayer, MatchmakingTracker, snapshot, disappeared, searching_player,
  send_users, send_to_searching, send_rooms, pop_users, pop_rooms, is_fresh, phantom_of,
  searching_after, update_and_get_phantoms,
}

-- Whether a player is one of the users, is in a room, or is in a room that sends to searching.
abbrev pub is_among : String → List RoomUser → Bool
is_among npid users = any_of (λ u. str_eq u.npid npid) users

abbrev pub is_in : String → ℕ × SnapshotRoom → Bool
is_in npid (_, room) = is_among npid room.users

abbrev sends : RoomType → Bool
sends player_match = false
sends rank_match = true

abbrev pub leaves : String → ℕ × SnapshotRoom → Bool
leaves npid (_, room) = sends room.room_type && is_among npid room.users

module _ (npid : String) (ttl now : ℕ) where
  -- Whether the player has an entry that is not too old.
  abbrev pub is_kept : Dict SearchingPlayer → Bool
  is_kept players = Dict.passes_value (is_fresh ttl now) (Dict.lookup npid players)

  is_kept-send_users :
      (rank_info : Option Rank) (users : List RoomUser) (players : Dict SearchingPlayer)
      → is_kept (send_users rank_info now users players) ≡ (is_among npid users || is_kept players)
  unfolding send_users any_of is_fresh
  is_kept-send_users rank_info [] players = refl
  is_kept-send_users rank_info (u ∷ us) players =
      let next = Dict.insert u.npid (searching_player rank_info u now) players in
      ground (
        arith,
        is_kept-send_users rank_info us next,
        Dict.lookup-insert u.npid npid (searching_player rank_info u now) players,
      )

  is_kept-send_rooms :
      (rooms : Table SnapshotRoom) (players : Dict SearchingPlayer)
      → is_kept (send_rooms rooms now players) ≡ (any_of (leaves npid) rooms || is_kept players)
  unfolding send_rooms send_to_searching any_of
  is_kept-send_rooms [] players = refl
  is_kept-send_rooms ((_, room) ∷ rooms) players = ground (
    arith,
    is_kept-send_rooms rooms (send_to_searching room now players),
    is_kept-send_users room.rank_info room.users players,
  )

  is_kept-pop_users :
      (users : List RoomUser) (players : Dict SearchingPlayer)
      → is_kept (pop_users users players) ≡ (not (is_among npid users) && is_kept players)
  unfolding pop_users any_of
  is_kept-pop_users [] players = refl
  is_kept-pop_users (u ∷ us) players = ground (
    arith,
    is_kept-pop_users us (Dict.erase u.npid players),
    Dict.lookup-erase u.npid npid players,
  )

  is_kept-pop_rooms :
      (rooms : Table SnapshotRoom) (players : Dict SearchingPlayer)
      → is_kept (pop_rooms rooms players) ≡ (not (any_of (is_in npid) rooms) && is_kept players)
  unfolding pop_rooms any_of
  is_kept-pop_rooms [] players = refl
  is_kept-pop_rooms ((_, room) ∷ rooms) players = ground (
    arith,
    is_kept-pop_rooms rooms (pop_users room.users players),
    is_kept-pop_users room.users players,
  )

module _ (visit : Table SnapshotRoom → Table SnapshotRoom) (ttl now : ℕ) where
  -- An update keeps the dict of searching players keyed by their names, each once.
  pub update-IsValid :
      (current_rooms : List RoomInfo) (tracker : MatchmakingTracker)
      → IsValid tracker.searching_players
      → IsValid (update_and_get_phantoms visit ttl now current_rooms tracker).1.searching_players
  unfolding update_and_get_phantoms
  update-IsValid current_rooms tracker v = elim (Option-cases tracker.prev_rooms) [
    | inl first ↦ rw first v
    | inr (prev, known) ↦ rw known (
        searching_after-IsValid visit ttl now prev (snapshot current_rooms)
          tracker.searching_players v)
  ]

  module _
      (visits : (npid : String) (rooms : Table SnapshotRoom)
        → any_of (leaves npid) (visit rooms) ≡ any_of (leaves npid) rooms)
      (current_rooms : List RoomInfo) (tracker : MatchmakingTracker) (prev : Table SnapshotRoom)
      (known : tracker.prev_rooms ≡ some prev) (v : IsValid tracker.searching_players) where
    abbrev updated : List RoomInfo × MatchmakingTracker
    updated = update_and_get_phantoms visit ttl now current_rooms tracker

    searching_after-is_some :
        (npid : String)
        → is_some (
            Dict.lookup npid (
              searching_after visit ttl now prev
                (snapshot current_rooms)
                tracker.searching_players))
          ≡ (not (any_of (is_in npid) (snapshot current_rooms))
              && (any_of (leaves npid) (disappeared prev (snapshot current_rooms))
                  || is_kept npid ttl now tracker.searching_players))
    unfolding searching_after
    searching_after-is_some npid =
        let current = snapshot current_rooms in
        let gone = visit (disappeared prev current) in
        let sent = send_rooms gone now tracker.searching_players in
        ground (
          arith,
          Dict.lookup-keep (is_fresh ttl now) npid (pop_rooms current sent)
              (pop_rooms-IsValid current sent
                (send_rooms-IsValid gone now tracker.searching_players v)).keyed,
          is_kept-pop_rooms npid ttl now current sent,
          is_kept-send_rooms npid ttl now gone tracker.searching_players,
          visits npid (disappeared prev current),
        )

    -- However Python visits the rooms that disappeared: after an update that follows an earlier
    -- snapshot, a player is searching exactly when no current room has the player, and either a rank
    -- match room with the player has disappeared, or the player was searching and was last seen
    -- within the time to live.
    pub update-searching :
        (npid : String)
        → is_some (Dict.lookup npid updated.1.searching_players) ≡ (
            not (any_of (is_in npid) (snapshot current_rooms))
            && (any_of (leaves npid) (disappeared prev (snapshot current_rooms))
                || is_kept npid ttl now tracker.searching_players))
    unfolding update_and_get_phantoms
    update-searching npid = rw known (searching_after-is_some npid)

    phantoms_of-absent :
        (players : Dict SearchingPlayer)
        → All (λ e. any_of (is_in e.1.npid) (snapshot current_rooms) ≡ false) players
        → All
            (λ r. any_of (is_in r.owner_npid) (snapshot current_rooms) ≡ false)
            (map phantom_of players)
    unfolding phantom_of phantom
    phantoms_of-absent [] h = tt
    phantoms_of-absent (e ∷ players) h = (h.0, phantoms_of-absent players h.1)

    -- After an update that follows an earlier snapshot, no phantom stands for a player whom a
    -- current room has.
    pub update-absent :
        All (λ r. any_of (is_in r.owner_npid) (snapshot current_rooms) ≡ false) updated.0
    unfolding update_and_get_phantoms
    update-absent =
        let players =
          searching_after visit ttl now prev (snapshot current_rooms) tracker.searching_players in
        let valid =
          searching_after-IsValid visit ttl now prev (snapshot current_rooms)
            tracker.searching_players v in
        let absent =
          Dict.All-lookup (λ e. any_of (is_in e.0) (snapshot current_rooms) ≡ false) players
            valid.keyed (λ k w e. ground (arith, searching_after-is_some k)) in
        rw known (
          phantoms_of-absent players (
            All-mono players (λ e h. rw h.1 h.0)
              (All-both (λ e. any_of (is_in e.0) (snapshot current_rooms) ≡ false) Named players
                absent valid.named)))
