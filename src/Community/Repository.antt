-- ===== src/Community/Repository.antt =====
-- community/adapters/postgresql.py: the methods of `PostgresCommunityRepository`, each inside the
-- caller's transaction. A generated key and `server_default=now()` are the arguments `id` and `at`.
use Prim.Native.String.{count as text_length}
use tag2now_be.Prelude.{
  ℕ, ◌-◌, ◌*◌, String, Bool, true, false, not, ◌&&◌, Option, none, some, List, [], ◌∷◌, map, Error,
  conflict, not_found, validation, integrity_error, Tx, pure, gets, modify, lift, raise_if,
  or_raise, ◌>>=◌, ◌>>◌, lookup, insert, erase, select, count, find?, sort_by, take, drop, length,
  any_of, str_eq, is_some, ltb, leb, ◌==◌, if◌then◌else◌,
}
use tag2now_be.Time.{Instant}
use tag2now_be.Community.Rows.{
  PostRow, CommentRow, Direction, up, down, Tables, is_vote, is_vote_by, is_live_comment,
}
use tag2now_be.Community.Rules.{notice_post_type, Comment}

abbrev pub post_missing : Error
post_missing = not_found "Post not found"

abbrev pub comment_missing : Error
comment_missing = not_found "Comment not found"

abbrev pub parent_missing : Error
parent_missing = not_found "Parent comment not found"

abbrev pub too_deep : Error
too_deep = validation "Cannot reply to a reply (max 1-depth nesting)"

abbrev pub already_voted : Error
already_voted = conflict "이미 추천·비추천한 글입니다."

-- A post's dict with the count of its comments.
pub record PostSummary : Type 0 where
  pub id : ℕ
  pub row : PostRow
  pub comment_count : ℕ

-- `if post_type`: an empty text is no type.
abbrev of_type : Option String → PostRow → Bool
of_type none post = not (str_eq post.post_type notice_post_type)
of_type (some t) post =
    if str_eq t "" then not (str_eq post.post_type notice_post_type) else str_eq post.post_type t

contains : List String → List String → Bool
contains names [] = true
contains names (c ∷ cs) = any_of (λ n. str_eq n c) names && contains names cs

unfoldable pub is_listed : Option String → List String → PostRow → Bool
unfolding contains
is_listed post_type characters post = of_type post_type post && contains post.characters characters

abbrev pub newer : ℕ × PostRow → ℕ × PostRow → Bool
newer (_, p) (_, q) = ltb q.created_at p.created_at

abbrev pub summary_of : Tables → ℕ × PostRow → PostSummary
summary_of db (id, row) = record {
  id = id;
  row = row;
  comment_count = count (is_live_comment id) db.comments;
}

-- Posts created at the same instant stand in the table's order.
unfoldable pub list_posts : ℕ → ℕ → Option String → List String → Tx Tables (List PostSummary × ℕ)
list_posts page page_size post_type characters = gets λ db.
    let found = select (λ _. is_listed post_type characters) db.posts in
    (
      map (summary_of db) (take page_size (drop ((page - 1) * page_size) (sort_by newer found))),
      count (is_listed post_type characters) db.posts,
    )

abbrev pub post_row : ℕ → Tx Tables PostRow
post_row post_id = do found ← gets (λ db. lookup post_id db.posts); or_raise found post_missing

unfoldable pub get_post : ℕ → Tx Tables PostRow
get_post post_id = post_row post_id

abbrev pub comment_of : ℕ × CommentRow → Comment
comment_of (id, row) = record { id = id; row = row; deleted = false }

abbrev pub older : ℕ × CommentRow → ℕ × CommentRow → Bool
older (_, c) (_, d) = ltb c.created_at d.created_at

unfoldable pub get_post_comments : ℕ → Tx Tables (List Comment)
get_post_comments post_id =
    gets λ db. map comment_of (sort_by older (select (λ _ c. c.post_id == post_id) db.comments))

-- The checks of the table.
abbrev post_fits : PostRow → Bool
post_fits row =
    leb (text_length row.title) 100
    && leb (text_length row.body) 1000
    && leb (length row.characters) 2

abbrev pub save_post : ℕ → PostRow → Tx Tables (Unit {0})
save_post id row = modify λ db. record db { posts = insert id row db.posts }

abbrev flush_post : ℕ → PostRow → Tx Tables (Unit {0})
flush_post id row = lift (raise_if (not (post_fits row)) integrity_error) >> save_post id row

abbrev new_post :
    Instant → String → String → String → String → List String → Option String → PostRow
new_post at author title body post_type characters youtube_video_id = record {
  author = author;
  title = title;
  body = body;
  post_type = post_type;
  characters = characters;
  youtube_video_id = youtube_video_id;
  thumbs_up = 0;
  thumbs_down = 0;
  created_at = at;
}

unfoldable pub create_post :
    ℕ
    → Instant
    → String
    → String
    → String
    → String
    → List String
    → Option String
    → Tx Tables (ℕ × PostRow)
create_post id at author title body post_type characters youtube_video_id = do
  let post : PostRow = new_post at author title body post_type characters youtube_video_id
  flush_post id post
  pure (id, post)

unfoldable pub update_post :
    ℕ → String → String → String → List String → Option String → Tx Tables PostSummary
update_post post_id title body post_type characters youtube_video_id = do
  found ← post_row post_id
  let post : PostRow = record found {
    title = title;
    body = body;
    post_type = post_type;
    characters = characters;
    youtube_video_id = youtube_video_id;
  }
  flush_post post_id post
  gets (λ db. summary_of db (post_id, post))

-- The deletion and its cascades: a reply is on its parent's post, so the replies go with the post's
-- own comments.
abbrev pub without_post : ℕ → Tables → Tables
without_post post_id db = record {
  posts = erase post_id db.posts;
  comments = select (λ _ c. not (c.post_id == post_id)) db.comments;
  thumbs = select (λ _ t. not (t.post_id == post_id)) db.thumbs;
}

unfoldable pub delete_post : ℕ → Tx Tables (Unit {0})
delete_post post_id = do found ← post_row post_id; modify (without_post post_id)

abbrev live_on : Option CommentRow → ℕ → Option CommentRow
live_on none post_id = none
live_on (some c) post_id = if is_live_comment post_id c then some c else none

-- `_is_live_on`, and the comment from there on.
abbrev pub live_comment : ℕ → ℕ → Error → Tx Tables CommentRow
live_comment post_id comment_id e = do
  found ← gets (λ db. live_on (lookup comment_id db.comments) post_id)
  or_raise found e

abbrev refuse_reply : CommentRow → Tx Tables (Unit {0})
refuse_reply parent = lift (raise_if (is_some parent.parent_id) too_deep)

unfoldable pub ensure_repliable : ℕ → Option ℕ → Tx Tables (Unit {0})
ensure_repliable post_id none = pure tt
ensure_repliable post_id (some parent_id) = do
  parent ← live_comment post_id parent_id parent_missing
  refuse_reply parent

unfoldable pub create_comment :
    ℕ → Instant → ℕ → String → String → Option ℕ → Tx Tables (ℕ × CommentRow)
unfolding ensure_repliable
create_comment id at post_id author body parent_id = do
  post ← post_row post_id
  ensure_repliable post_id parent_id
  lift (raise_if (not (leb (text_length body) 1000)) integrity_error)
  let comment : CommentRow = record {
    post_id = post_id;
    parent_id = parent_id;
    author = author;
    body = body;
    created_at = at;
    deleted_at = none;
  }
  modify (λ db. record db { comments = insert id comment db.comments })
  pure (id, comment)

unfoldable pub get_comment : ℕ → ℕ → Tx Tables CommentRow
get_comment post_id comment_id = live_comment post_id comment_id comment_missing

abbrev mark_deleted : ℕ → Instant → Option CommentRow → Tables → Tables
mark_deleted comment_id now none db = db
mark_deleted comment_id now (some c) db = record db {
  comments = insert comment_id (record c { deleted_at = some now }) db.comments;
}

unfoldable pub delete_comment : ℕ → Instant → Tx Tables (Unit {0})
delete_comment comment_id now =
    modify (λ db. mark_deleted comment_id now (lookup comment_id db.comments) db)

-- `_thumb_counts`: the sums of the cases are the counts of the two directions.
unfoldable pub thumb_counts : ℕ → Tables → ℕ × ℕ
thumb_counts post_id db =
    (count (is_vote post_id up) db.thumbs, count (is_vote post_id down) db.thumbs)

unfoldable pub add_thumb : ℕ → Instant → ℕ → String → Direction → Tx Tables (ℕ × ℕ)
unfolding thumb_counts
add_thumb id at post_id voter direction = do
  post ← post_row post_id
  voted ← gets (λ db. find? (is_vote_by post_id voter) db.thumbs)
  lift (raise_if (is_some voted) already_voted)
  modify (λ db. record db {
    thumbs =
        insert id
          (record { post_id = post_id; voter = voter; direction = direction; created_at = at })
          db.thumbs;
  })
  counts ← gets (thumb_counts post_id)
  save_post post_id (record post { thumbs_up = counts.0; thumbs_down = counts.1 })
  pure counts
