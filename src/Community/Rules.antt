-- ===== src/Community/Rules.antt =====
-- The rules of community/service.py and what it makes of a post's comments: deleted ones hidden, and
-- replies under their parents. `Comment` is a comment's dict; `Thread` a top-level one with the
-- replies under it. A reply to a reply is refused when it is posted, so replies have no replies here.
use tag2now_be.Prelude.{
  ℕ, String, Bool, true, false, not, ◌&&◌, ◌||◌, Option, none, some, List, map, Error, Result,
  forbidden, raise_if, str_eq, ◌==◌, filter_by, any_of, is_none, if◌then◌else◌,
}
use tag2now_be.Community.Rows.{AuthUser, PostRow, CommentRow}

abbrev pub notice_post_type : String
notice_post_type = "공지"

abbrev pub notice_admin_only : Error
notice_admin_only = forbidden "공지는 관리자만 작성할 수 있습니다."

abbrev pub not_your_post : Error
not_your_post = forbidden "Not your post"

abbrev pub not_your_comment : Error
not_your_comment = forbidden "Not your comment"

unfoldable pub ensure_can_use_post_type : String → AuthUser → Result (Unit {0})
ensure_can_use_post_type post_type user =
    raise_if (str_eq post_type notice_post_type && not user.admin) notice_admin_only

unfoldable pub ensure_can_manage_post : PostRow → AuthUser → Result (Unit {0})
ensure_can_manage_post post user =
    let owns = str_eq post.author user.username in
    let co_admin = str_eq post.post_type notice_post_type && user.admin in
    raise_if (not (owns || co_admin)) not_your_post

unfoldable pub ensure_can_delete_comment : CommentRow → AuthUser → Result (Unit {0})
ensure_can_delete_comment comment user =
    raise_if (not (str_eq comment.author user.username) && not user.admin) not_your_comment

pub record Comment : Type 0 where
  pub id : ℕ
  pub row : CommentRow
  pub deleted : Bool

abbrev pub is_live : Comment → Bool
is_live c = is_none c.row.deleted_at

-- Whether a comment is the parent that a reply names; an id of 0 is no id.
abbrev pub is_parent : Option ℕ → ℕ → Bool
is_parent none id = false
is_parent (some p) id = p == id && not (p == 0)

-- `c["id"] in heads`.
unfoldable pub is_head : List Comment → Comment → Bool
is_head comments c = any_of (λ r. is_live r && is_parent r.row.parent_id c.id) comments

unfoldable pub tombstone : Comment → Comment
tombstone c = record c { row = record c.row { body = "" }; deleted = true }

abbrev shown : Comment → Comment
shown c = if is_live c then c else tombstone c

unfoldable pub hide_deleted : List Comment → List Comment
unfolding tombstone is_head
hide_deleted comments = map shown (filter_by (λ c. is_live c || is_head comments c) comments)

pub record Thread : Type 0 where
  pub comment : Comment
  pub replies : List Comment

unfoldable pub has_parent_in : List Comment → Comment → Bool
has_parent_in comments c = any_of (λ p. is_parent c.row.parent_id p.id) comments

abbrev thread_of : List Comment → Comment → Thread
thread_of comments c = record {
  comment = c;
  replies = filter_by (λ r. is_parent r.row.parent_id c.id) comments;
}

unfoldable pub nest_replies : List Comment → List Thread
unfolding has_parent_in
nest_replies comments =
    map (thread_of comments) (filter_by (λ c. not (has_parent_in comments c)) comments)
