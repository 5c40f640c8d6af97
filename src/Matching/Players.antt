-- ===== src/Matching/Players.antt =====
-- The dict of searching players of matching/matchmaking_tracker.py stays well formed.
use tag2now_be.Prelude.{ℕ, ◌≡◌, refl, String, Option, List, [], ◌∷◌, Table, All}
use tag2now_be.Prelude.Dict
use tag2now_be.Prelude.Dict.{Dict}
use tag2now_be.Matching.Rooms.{RoomType, player_match, rank_match, Rank, RoomUser}
use tag2now_be.Matching.Tracker.{
  SnapshotRoom, SearchingPlayer, searching_player, send_users, send_room_of, send_to_searching,
  send_rooms, pop_users, pop_rooms, is_fresh, disappeared, searching_after,
}

-- The dict is keyed by the players' own names, each once.
pub record IsValid (players : Dict SearchingPlayer) : Type 0 where
  pub keyed : Dict.IsKeyed players
  pub named : All (λ e. e.1.npid ≡ e.0) players

abbrev pub Named : String × SearchingPlayer → Type 0
Named e = e.1.npid ≡ e.0

send_users-IsValid :
    (rank_info : Option Rank) (now : ℕ) (users : List RoomUser) (players : Dict SearchingPlayer)
    → IsValid players
    → IsValid (send_users rank_info now users players)
unfolding send_users
send_users-IsValid rank_info now [] players v = v
send_users-IsValid rank_info now (u ∷ us) players v =
    let player = searching_player rank_info u now in
    send_users-IsValid rank_info now us (Dict.insert u.npid player players) (record {
      keyed = Dict.insert-IsKeyed u.npid player players v.keyed;
      named = Dict.All-insert Named u.npid player players refl v.named;
    })

send_room_of-IsValid :
    (room_type : RoomType) (rank_info : Option Rank) (now : ℕ) (users : List RoomUser)
    (players : Dict SearchingPlayer)
    → IsValid players
    → IsValid (send_room_of room_type rank_info now users players)
send_room_of-IsValid player_match rank_info now users players v = v
send_room_of-IsValid rank_match rank_info now users players v =
    send_users-IsValid rank_info now users players v

send_to_searching-IsValid :
    (room : SnapshotRoom) (now : ℕ) (players : Dict SearchingPlayer)
    → IsValid players
    → IsValid (send_to_searching room now players)
unfolding send_to_searching
send_to_searching-IsValid room now players v =
    send_room_of-IsValid room.room_type room.rank_info now room.users players v

pub send_rooms-IsValid :
    (rooms : Table SnapshotRoom) (now : ℕ) (players : Dict SearchingPlayer)
    → IsValid players
    → IsValid (send_rooms rooms now players)
unfolding send_rooms
send_rooms-IsValid [] now players v = v
send_rooms-IsValid ((_, room) ∷ rooms) now players v =
    send_rooms-IsValid rooms now (send_to_searching room now players)
      (send_to_searching-IsValid room now players v)

pop_users-IsValid :
    (users : List RoomUser) (players : Dict SearchingPlayer)
    → IsValid players
    → IsValid (pop_users users players)
unfolding pop_users
pop_users-IsValid [] players v = v
pop_users-IsValid (u ∷ us) players v = pop_users-IsValid us (Dict.erase u.npid players) (record {
  keyed = Dict.erase-IsKeyed u.npid players v.keyed;
  named = Dict.All-erase Named u.npid players v.named;
})

pub pop_rooms-IsValid :
    (rooms : Table SnapshotRoom) (players : Dict SearchingPlayer)
    → IsValid players
    → IsValid (pop_rooms rooms players)
unfolding pop_rooms
pop_rooms-IsValid [] players v = v
pop_rooms-IsValid ((_, room) ∷ rooms) players v =
    pop_rooms-IsValid rooms (pop_users room.users players) (pop_users-IsValid room.users players v)

module _ (visit : Table SnapshotRoom → Table SnapshotRoom) (ttl now : ℕ) where
  pub searching_after-IsValid :
      (prev current : Table SnapshotRoom) (players : Dict SearchingPlayer)
      → IsValid players
      → IsValid (searching_after visit ttl now prev current players)
  unfolding searching_after
  searching_after-IsValid prev current players v =
      let sent = send_rooms (visit (disappeared prev current)) now players in
      let popped =
        pop_rooms-IsValid current sent
          (send_rooms-IsValid (visit (disappeared prev current)) now players v) in
      record {
        keyed = Dict.keep-IsKeyed (λ _. is_fresh ttl now) (pop_rooms current sent) popped.keyed;
        named = Dict.All-keep Named (λ _. is_fresh ttl now) (pop_rooms current sent) popped.named;
      }
