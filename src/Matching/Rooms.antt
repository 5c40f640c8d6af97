-- ===== src/Matching/Rooms.antt =====
-- The rooms of matching/models.py. A `Rank` carries the name and the tier that its table has for it.
use tag2now_be.Prelude.{ℕ, String, Option, List, [], ◌∷◌}

pub data RoomType : Type 0 where
  player_match rank_match : RoomType

pub record Rank : Type 0 where
  pub id : ℕ
  pub name : String
  pub tier : String

pub record RoomUser : Type 0 where
  pub online_name : String
  pub avatar_url : String
  pub npid : String

pub record RoomInfo : Type 0 where
  pub room_id : ℕ
  pub owner_npid : String
  pub owner_online_name : String
  pub current_members : ℕ
  pub max_slots : ℕ
  pub room_type : RoomType
  pub rank_info : Option Rank
  pub users : List RoomUser

-- `RoomInfoDTO.phantom`.
unfoldable pub phantom : String → String → RoomType → Option Rank → RoomInfo
phantom owner_npid owner_online_name room_type rank_info = record {
  room_id = 0;
  owner_npid = owner_npid;
  owner_online_name = owner_online_name;
  current_members = 1;
  max_slots = 2;
  room_type = room_type;
  rank_info = rank_info;
  users = record { online_name = owner_online_name; avatar_url = ""; npid = owner_npid } ∷ [];
}
