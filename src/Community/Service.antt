-- ===== src/Community/Service.antt =====
-- community/service.py without its cache: each use case runs the rules and its repository calls in one
-- transaction.
use tag2now_be.Prelude.{ℕ, String, Option, List, Tx, pure, lift, ◌>>=◌, ◌>>◌}
use tag2now_be.Time.{Instant}
use tag2now_be.Idempotency.Store.{Session, run_once}
use tag2now_be.Community.Rows.{AuthUser, PostRow, CommentRow, Direction, Tables}
use tag2now_be.Community.Rules.{
  Thread, ensure_can_use_post_type, ensure_can_manage_post, ensure_can_delete_comment, hide_deleted,
  nest_replies,
}
use tag2now_be.Community.Repository
use tag2now_be.Community.Repository.{PostSummary}

-- The body of a request to write a post; `characters or []` and the type's default are filled in.
pub record PostRequest : Type 0 where
  pub title : String
  pub body : String
  pub post_type : String
  pub characters : List String
  pub youtube_video_id : Option String

-- The `request` of a comment, which the idempotency digest covers.
pub record CommentRequest : Type 0 where
  pub post_id : ℕ
  pub body : String
  pub parent_id : Option ℕ

-- A post's dict with its threads.
pub record PostDetail : Type 0 where
  pub id : ℕ
  pub row : PostRow
  pub comments : List Thread

-- What `get_post` reads when nothing is cached.
unfoldable pub load_post : ℕ → Tx Tables PostDetail
load_post post_id = do
  post ← Repository.get_post post_id
  comments ← Repository.get_post_comments post_id
  pure (record { id = post_id; row = post; comments = nest_replies (hide_deleted comments) })

module _ (Json : Type 0) (fingerprint : String → PostRequest → String)
    (to_json : ℕ × PostRow → Json) where
  unfoldable pub create_post :
      ℕ → Instant → AuthUser → PostRequest → String → Tx (Session Json Tables) Json
  create_post id at author request idempotency_key = do
    lift (ensure_can_use_post_type request.post_type author)
    run_once Json fingerprint to_json author.username idempotency_key "community.post" request (
        Repository.create_post id at author.username request.title request.body request.post_type
          request.characters request.youtube_video_id)

unfoldable pub update_post : ℕ → AuthUser → PostRequest → Tx Tables PostSummary
update_post post_id user request = do
  lift (ensure_can_use_post_type request.post_type user)
  post ← Repository.get_post post_id
  lift (ensure_can_manage_post post user)
  Repository.update_post post_id request.title request.body request.post_type request.characters
      request.youtube_video_id

unfoldable pub delete_post : ℕ → AuthUser → Tx Tables (Unit {0})
delete_post post_id user = do
  post ← Repository.get_post post_id
  lift (ensure_can_manage_post post user)
  Repository.delete_post post_id

module _ (Json : Type 0) (fingerprint : String → CommentRequest → String)
    (to_json : ℕ × CommentRow → Json) where
  unfoldable pub create_comment :
      ℕ → Instant → AuthUser → CommentRequest → String → Tx (Session Json Tables) Json
  create_comment id at author request idempotency_key =
      run_once Json fingerprint to_json author.username idempotency_key "community.comment" request
        (Repository.create_comment id at request.post_id author.username request.body
          request.parent_id)

unfoldable pub delete_comment : ℕ → ℕ → AuthUser → Instant → Tx Tables (Unit {0})
delete_comment post_id comment_id user now = do
  comment ← Repository.get_comment post_id comment_id
  lift (ensure_can_delete_comment comment user)
  Repository.delete_comment comment_id now

unfoldable pub add_thumb : ℕ → Instant → ℕ → AuthUser → Direction → Tx Tables (ℕ × ℕ)
add_thumb id at post_id voter direction =
    Repository.add_thumb id at post_id voter.username direction
