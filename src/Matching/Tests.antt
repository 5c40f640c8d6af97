-- ===== src/Matching/Tests.antt =====
-- Runs of the tracker at concrete inputs, and its theorems there.
use tag2now_be.Prelude.{
  count_of, filter_by, IsSortedBy, ◌==◌, str_eq, Bool, ◌+◌, ℕ, ◌≡◌, refl, String, false, not, ◌&&◌,
  ◌||◌, none, some, List, [], ◌∷◌, Table, is_some, any_of, arith, insert, select,
}
use tag2now_be.Prelude.Dict
use tag2now_be.Matching.Rooms.{RoomType, player_match, rank_match, RoomUser, RoomInfo, phantom}
use tag2now_be.Matching.Tracker.{
  SnapshotRoom, MatchmakingTracker, new_tracker, snapshot, disappeared, searching_after, send_rooms,
  send_to_searching, send_users, pop_rooms, is_fresh, phantom_of, update_and_get_phantoms,
}
use tag2now_be.Matching.Connection.{
  Outcome, done, failure, made, create_client, strands_of, serve, shutdown, answered, lost, cooling,
  opens, closes, SharedClient, Request, calling, shutting_down, new_client, api_client, discard,
  remaining, serve_all, IsBalanced, serve_all-IsBalanced, api_client-cooling,
}
use tag2now_be.Matching.Leaderboard.{LeaderboardEntry, Leaderboard, IsRanked}
use tag2now_be.Matching.Listing.{
  phantoms, lower_rank, is_player_match, fetch_rooms_all, fetch_rooms_all-whole,
}
use tag2now_be.Matching.Players.{IsValid}
use tag2now_be.Matching.Phantoms.{is_in, leaves, is_kept, update-searching}

abbrev user : String → RoomUser
user npid = record { online_name = npid; avatar_url = ""; npid = npid }

abbrev room : ℕ → RoomType → String → RoomInfo
room room_id room_type npid = record {
  room_id = room_id;
  owner_npid = npid;
  owner_online_name = npid;
  current_members = 1;
  max_slots = 2;
  room_type = room_type;
  rank_info = none;
  users = user npid ∷ [];
}

abbrev as_given : Table SnapshotRoom → Table SnapshotRoom
as_given rooms = rooms

-- Ann hosts a rank match and Bob a player match.
abbrev hosting : List RoomInfo
hosting = room 1 rank_match "ann" ∷ room 2 player_match "bob" ∷ []

abbrev seen_hosting : MatchmakingTracker
seen_hosting = record { prev_rooms = some (snapshot hosting); searching_players = [] }

first-update : update_and_get_phantoms as_given 60 100 hosting new_tracker ≡ ([], seen_hosting)
unfolding update_and_get_phantoms
first-update = refl

-- Both rooms disappear: Ann is searching, Bob is not.
both-gone :
    (update_and_get_phantoms as_given 60 105 [] seen_hosting).0
    ≡ phantom "ann" "ann" rank_match none ∷ []
unfolding update_and_get_phantoms searching_after snapshot disappeared send_rooms send_to_searching
    send_users pop_rooms is_fresh phantom_of phantom insert select Dict.insert Dict.keep
both-gone = refl

no_players : IsValid []
no_players = record { keyed = tt; named = tt }

update-searching_example :
    is_some (
      Dict.lookup "ann"
        (update_and_get_phantoms as_given 60 105 [] seen_hosting).1.searching_players)
    ≡ (not (any_of (is_in "ann") (snapshot []))
        && (any_of (leaves "ann") (disappeared (snapshot hosting) (snapshot []))
            || is_kept "ann" 60 105 []))
update-searching_example =
    update-searching as_given 60 105 (λ npid rooms. refl) [] seen_hosting (snapshot hosting) refl
      no_players "ann"

abbrev answers : ℕ → Outcome String
answers c = done "rooms"

abbrev breaks : ℕ → Outcome String
breaks c = failure "closed"

-- A call that connects and answers, one that loses the connection, and one too early after it.
abbrev logs_in : ℕ → Outcome (Unit {0})
logs_in c = done tt

abbrev is_refused : ℕ → Outcome (Unit {0})
is_refused c = failure "LoginInvalidToken"

abbrev calls_made : List (Request ℕ String)
calls_made =
    calling 10 10 (made 1) logs_in answers
    ∷ calling 11 12 (made 2) logs_in breaks
    ∷ calling 13 13 (made 3) logs_in answers
    ∷ calling 20 21 (made 4) is_refused answers
    ∷ shutting_down
    ∷ []

-- The connection whose login was refused is left open.
left-open : count_of (strands_of (λ c. c == 4)) (serve_all 5 calls_made new_client).calls ≡ 1
unfolding serve_all serve api_client discard shutdown remaining create_client count_of strands_of
left-open = refl

serve_all-IsBalanced_example : IsBalanced (λ c. c == 4) (serve_all 5 calls_made new_client)
serve_all-IsBalanced_example = serve_all-IsBalanced (λ c. c == 4) 5 calls_made

abbrev holding : SharedClient ℕ
holding = record { client = some 1; failed_at = none; calls = opens 1 ∷ [] }

abbrev paused : SharedClient ℕ
paused = record { client = none; failed_at = some 12; calls = closes 1 ∷ opens 1 ∷ [] }

first-call : api_client 5 10 10 (made 1) logs_in answers new_client ≡ (answered "rooms", holding)
unfolding api_client remaining create_client
first-call = refl

lost-call : api_client 5 11 12 (made 2) logs_in breaks holding ≡ (lost "closed", paused)
unfolding api_client discard
lost-call = refl

api_client-cooling_example :
    api_client 5 13 13 (made 3) logs_in answers paused ≡ (cooling 4, paused)
api_client-cooling_example =
    api_client-cooling 5 11 12 (made 2) logs_in breaks holding paused "closed" 13 13 (made 3)
      logs_in answers lost-call (omega arith)

abbrev entry : ℕ → String → LeaderboardEntry
entry rank np_id = record {
  rank = rank;
  np_id = np_id;
  online_name = np_id;
  score = 0;
  pc_id = 0;
  record_date = 0;
  has_game_data = false;
  comment = "";
  player_info = none;
}

-- Two tie for the second place, and one of them is excluded.
abbrev board : Leaderboard
board = record {
  total_records = 4;
  last_sort_date = 0;
  entries = entry 1 "test" ∷ entry 2 "ann" ∷ entry 2 "bob" ∷ entry 4 "eve" ∷ [];
}

abbrev same_text : String → String
same_text t = t

board-IsRanked : IsRanked same_text ("test" ∷ []) board.entries board.entries
unfolding count_of
board-IsRanked = (refl, (refl, (refl, (refl, tt))))

abbrev of_ann : RoomInfo → Bool
of_ann r = str_eq r.owner_npid "ann"

fetch_rooms_all-whole_example :
    let out = (fetch_rooms_all as_given 60 105 [] seen_hosting).0 in
    (out.player_rooms ≡ filter_by is_player_match [])
    × (count_of of_ann out.rank_rooms
        ≡ count_of of_ann (filter_by (λ r. not (is_player_match r)) [])
          + count_of of_ann (phantoms as_given 60 105 [] seen_hosting))
    × IsSortedBy lower_rank out.rank_rooms
fetch_rooms_all-whole_example = fetch_rooms_all-whole as_given 60 105 [] seen_hosting of_ann
