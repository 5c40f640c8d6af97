-- ===== src/Community/Rows.antt =====
-- The tables of community/entities.py and the accounts of auth/models.py. A row is what `_as_dict`
-- answers, under its id. The foreign keys' `ON DELETE CASCADE` is part of the deletion of a post.
use tag2now_be.Prelude.{
  ℕ, String, Bool, true, false, ◌&&◌, Option, List, Table, ◌==◌, str_eq, is_none,
}
use tag2now_be.Time.{Instant}

pub record AuthUser : Type 0 where
  pub username : String
  pub online_name : String
  pub avatar_url : String
  pub admin : Bool

pub record PostRow : Type 0 where
  pub author : String
  pub title : String
  pub body : String
  pub post_type : String
  pub characters : List String
  pub youtube_video_id : Option String
  pub thumbs_up : ℕ
  pub thumbs_down : ℕ
  pub created_at : Instant

pub record CommentRow : Type 0 where
  pub post_id : ℕ
  pub parent_id : Option ℕ
  pub author : String
  pub body : String
  pub created_at : Instant
  pub deleted_at : Option Instant

-- `direction IN (1, -1)`: 1 is up, -1 is down.
pub data Direction : Type 0 where
  up down : Direction

abbrev pub same_direction : Direction → Direction → Bool
same_direction up up = true
same_direction down down = true
same_direction _ _ = false

pub record ThumbRow : Type 0 where
  pub post_id : ℕ
  pub voter : String
  pub direction : Direction
  pub created_at : Instant

pub record Tables : Type 0 where
  pub posts : Table PostRow
  pub comments : Table CommentRow
  pub thumbs : Table ThumbRow

abbrev pub is_vote : ℕ → Direction → ThumbRow → Bool
is_vote post_id direction t = t.post_id == post_id && same_direction t.direction direction

abbrev pub is_vote_by : ℕ → String → ThumbRow → Bool
is_vote_by post_id voter t = t.post_id == post_id && str_eq t.voter voter

abbrev pub is_live_comment : ℕ → CommentRow → Bool
is_live_comment post_id c = c.post_id == post_id && is_none c.deleted_at
