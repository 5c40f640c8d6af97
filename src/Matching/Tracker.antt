-- ===== src/Matching/Tracker.antt =====
-- matching/matchmaking_tracker.py. Times are whole ticks of one clock; `now` and `matchmaking_ttl`
-- are arguments. The order in which Python visits the set of the rooms that disappeared is the
-- argument `visit`.
use tag2now_be.Prelude.{
  ℕ, ◌+◌, String, Bool, not, Option, none, some, List, [], ◌∷◌, map, ltb, Table, lookup, insert,
  select, is_some,
}
use tag2now_be.Prelude.Dict
use tag2now_be.Prelude.Dict.{Dict}
use tag2now_be.Matching.Rooms.{
  RoomType, player_match, rank_match, Rank, RoomUser, RoomInfo, phantom,
}

pub record SnapshotRoom : Type 0 where
  pub room_id : ℕ
  pub owner_npid : String
  pub owner_online_name : String
  pub current_members : ℕ
  pub room_type : RoomType
  pub rank_info : Option Rank
  pub users : List RoomUser

pub record SearchingPlayer : Type 0 where
  pub npid : String
  pub online_name : String
  pub room_type : RoomType
  pub rank_info : Option Rank
  pub last_seen : ℕ

pub record MatchmakingTracker : Type 0 where
  pub prev_rooms : Option (Table SnapshotRoom)
  pub searching_players : Dict SearchingPlayer

abbrev pub new_tracker : MatchmakingTracker
new_tracker = record { prev_rooms = none; searching_players = [] }

abbrev snapshot_room : RoomInfo → SnapshotRoom
snapshot_room room = record {
  room_id = room.room_id;
  owner_npid = room.owner_npid;
  owner_online_name = room.owner_online_name;
  current_members = room.current_members;
  room_type = room.room_type;
  rank_info = room.rank_info;
  users = room.users;
}

add_rooms : List RoomInfo → Table SnapshotRoom → Table SnapshotRoom
add_rooms [] rooms = rooms
add_rooms (r ∷ rs) rooms = add_rooms rs (insert r.room_id (snapshot_room r) rooms)

-- The dict comprehension: of two rooms with one id the later stays.
unfoldable pub snapshot : List RoomInfo → Table SnapshotRoom
unfolding add_rooms
snapshot current_rooms = add_rooms current_rooms []

-- `prev_keys - curr_keys`, with the rooms.
unfoldable pub disappeared : Table SnapshotRoom → Table SnapshotRoom → Table SnapshotRoom
disappeared prev current = select (λ room_id _. not (is_some (lookup room_id current))) prev

abbrev pub searching_player : Option Rank → RoomUser → ℕ → SearchingPlayer
searching_player rank_info user now = record {
  npid = user.npid;
  online_name = user.online_name;
  room_type = rank_match;
  rank_info = rank_info;
  last_seen = now;
}

-- The loop of `_send_to_searching` over the users of a room.
unfoldable pub send_users :
    Option Rank → ℕ → List RoomUser → Dict SearchingPlayer → Dict SearchingPlayer
send_users rank_info now [] players = players
send_users rank_info now (u ∷ us) players =
    send_users rank_info now us (Dict.insert u.npid (searching_player rank_info u now) players)

abbrev pub send_room_of :
    RoomType → Option Rank → ℕ → List RoomUser → Dict SearchingPlayer → Dict SearchingPlayer
send_room_of player_match rank_info now users players = players
send_room_of rank_match rank_info now users players = send_users rank_info now users players

unfoldable pub send_to_searching : SnapshotRoom → ℕ → Dict SearchingPlayer → Dict SearchingPlayer
send_to_searching room now players =
    send_room_of room.room_type room.rank_info now room.users players

unfoldable pub send_rooms : Table SnapshotRoom → ℕ → Dict SearchingPlayer → Dict SearchingPlayer
send_rooms [] now players = players
send_rooms ((_, room) ∷ rooms) now players =
    send_rooms rooms now (send_to_searching room now players)

unfoldable pub pop_users : List RoomUser → Dict SearchingPlayer → Dict SearchingPlayer
pop_users [] players = players
pop_users (u ∷ us) players = pop_users us (Dict.erase u.npid players)

-- Seen in a room again, a player is no longer searching.
unfoldable pub pop_rooms : Table SnapshotRoom → Dict SearchingPlayer → Dict SearchingPlayer
pop_rooms [] players = players
pop_rooms ((_, room) ∷ rooms) players = pop_rooms rooms (pop_users room.users players)

-- `not (now - mp.last_seen > ttl)`.
unfoldable pub is_fresh : ℕ → ℕ → SearchingPlayer → Bool
is_fresh ttl now mp = not (ltb (mp.last_seen + ttl) now)

unfoldable pub phantom_of : String × SearchingPlayer → RoomInfo
unfolding phantom
phantom_of (_, mp) = phantom mp.npid mp.online_name mp.room_type mp.rank_info

unfoldable pub searching_after :
    (Table SnapshotRoom → Table SnapshotRoom)
    → ℕ
    → ℕ
    → Table SnapshotRoom
    → Table SnapshotRoom
    → Dict SearchingPlayer
    → Dict SearchingPlayer
searching_after visit ttl now prev current players =
    Dict.keep (λ _. is_fresh ttl now)
      (pop_rooms current (send_rooms (visit (disappeared prev current)) now players))

unfoldable pub update_and_get_phantoms :
    (Table SnapshotRoom → Table SnapshotRoom)
    → ℕ
    → ℕ
    → List RoomInfo
    → MatchmakingTracker
    → List RoomInfo × MatchmakingTracker
update_and_get_phantoms visit ttl now current_rooms tracker =
    let current = snapshot current_rooms in
    elim tracker.prev_rooms [
      | none ↦ ([], record tracker { prev_rooms = some current })
      | some prev ↦
          let players = searching_after visit ttl now prev current tracker.searching_players in
          (
            map phantom_of players,
            record { prev_rooms = some current; searching_players = players },
          )
    ]
