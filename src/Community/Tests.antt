-- ===== src/Community/Tests.antt =====
-- Runs of the community board at concrete inputs, and its theorems there.
use tag2now_be.Prelude.{
  ℕ, ◌≡◌, refl, String, true, false, not, ◌&&◌, ◌||◌, Option, none, some, [], ◌∷◌, arith, ok, err,
  if◌then◌else◌, lookup, insert, select, count, find?, sort_by, count_of, passing, str_eq, ◌==◌,
  filter_by, any_of,
}
use tag2now_be.Idempotency.Store.{on_tables}
use tag2now_be.Community.Rows.{AuthUser, PostRow, CommentRow, up, down, Tables, is_live_comment}
use tag2now_be.Community.Rules.{
  is_live, hide_deleted, nest_replies, ensure_can_use_post_type, ensure_can_manage_post,
  notice_post_type,
}
use tag2now_be.Community.Repository
use tag2now_be.Community.Repository.{
  PostSummary, already_voted, get_post, get_post_comments, ensure_repliable, thumb_counts,
}
use tag2now_be.Community.Invariant.{IsConsistent}
use tag2now_be.Community.Posts.{create_post-IsConsistent}
use tag2now_be.Community.Comments.{create_comment-IsConsistent}
use tag2now_be.Community.Votes.{add_thumb-final}
use tag2now_be.Community.Service.{
  PostRequest, CommentRequest, PostDetail, load_post, update_post, add_thumb,
}
use tag2now_be.Community.History.{
  voting, here, next, board-IsConsistent, manages, edited_post, update_post-allowed,
}
use tag2now_be.Community.Threads.{flat}
use tag2now_be.Community.Reading.{load_post-whole}

abbrev no_rows : Tables
no_rows = record { posts = []; comments = []; thumbs = [] }

no_rows-IsConsistent : IsConsistent no_rows
unfolding count
no_rows-IsConsistent = record {
  posts_keyed = tt;
  comments_keyed = tt;
  tallied = λ id post e. absurd (ground arith);
  unvoted = λ id d e. refl;
  votes_once = λ id voter. omega arith;
  placed = λ id c e. absurd (ground arith);
}

abbrev post : PostRow
post = record {
  author = "ann";
  title = "hello";
  body = "first";
  post_type = "자유";
  characters = [];
  youtube_video_id = none;
  thumbs_up = 0;
  thumbs_down = 0;
  created_at = 100;
}

abbrev posted : Tables
posted = record { posts = (1, post) ∷ []; comments = []; thumbs = [] }

create-post :
    Repository.create_post 1 100 "ann" "hello" "first" "자유" [] none no_rows ≡ ok ((1, post), posted)
unfolding Repository.create_post insert
create-post = refl

posted-IsConsistent : IsConsistent posted
posted-IsConsistent =
    create_post-IsConsistent 1 100 "ann" "hello" "first" "자유" [] none no_rows posted (1, post)
      no_rows-IsConsistent refl create-post

abbrev comment : Option ℕ → CommentRow
comment parent_id = record {
  post_id = 1;
  parent_id = parent_id;
  author = "bob";
  body = "hi";
  created_at = 101;
  deleted_at = none;
}

abbrev commented : Tables
commented = record posted { comments = (1, comment none) ∷ [] }

abbrev replied : Tables
replied = record posted { comments = (1, comment none) ∷ (2, comment (some 1)) ∷ [] }

create-comment :
    Repository.create_comment 1 101 1 "bob" "hi" none posted ≡ ok ((1, comment none), commented)
unfolding Repository.create_comment insert
create-comment = refl

create-reply :
    Repository.create_comment 2 101 1 "bob" "hi" (some 1) commented
    ≡ ok ((2, comment (some 1)), replied)
unfolding Repository.create_comment insert
create-reply = refl

replied-IsConsistent : IsConsistent replied
replied-IsConsistent =
    create_comment-IsConsistent 2 101 1 "bob" "hi" (some 1) commented replied (2, comment (some 1))
      (create_comment-IsConsistent 1 101 1 "bob" "hi" none posted commented (1, comment none)
        posted-IsConsistent refl create-comment)
      refl create-reply

abbrev detail : PostDetail
detail = record {
  id = 1;
  row = post;
  comments =
      record {
        comment = record { id = 1; row = comment none; deleted = false };
        replies = record { id = 2; row = comment (some 1); deleted = false } ∷ [];
      }
      ∷ [];
}

load-replied : load_post 1 replied ≡ ok (detail, replied)
unfolding load_post get_post get_post_comments hide_deleted nest_replies select sort_by filter_by
    any_of
load-replied = refl

load_post-whole_example :
    count_of (λ m. is_live m && m.id == 2) (flat detail.comments)
    ≡ passing (λ _ v. is_live_comment 1 v) 2 (lookup 2 replied.comments)
load_post-whole_example =
    load_post-whole 1 replied replied-IsConsistent detail replied 2 load-replied

abbrev voted : Tables
voted = record posted {
  posts = (1, record post { thumbs_up = 1 }) ∷ [];
  thumbs = (7, record { post_id = 1; voter = "bob"; direction = up; created_at = 102 }) ∷ [];
}

vote-up : Repository.add_thumb 7 102 1 "bob" up posted ≡ ok ((1, 0), voted)
unfolding Repository.add_thumb insert find? count
vote-up = refl

add_thumb-final_example : Repository.add_thumb 8 103 1 "bob" down voted ≡ err already_voted
add_thumb-final_example =
    add_thumb-final 7 102 1 "bob" up posted voted (1, 0) 8 103 down refl vote-up

abbrev bob : AuthUser
bob = record { username = "bob"; online_name = "Bob"; avatar_url = ""; admin = false }

abbrev ann : AuthUser
ann = record { username = "ann"; online_name = "Ann"; avatar_url = ""; admin = false }

abbrev print_post : String → PostRequest → String
print_post scope request = request.title

abbrev print_comment : String → CommentRequest → String
print_comment scope request = request.body

abbrev first_post : ℕ × PostRow → ℕ
first_post p = p.0

abbrev first_comment : ℕ × CommentRow → ℕ
first_comment p = p.0

vote-step : on_tables ℕ (add_thumb 7 102 1 bob up) ([], posted) ≡ ok ((1, 0), ([], voted))
unfolding add_thumb Repository.add_thumb insert find? count
vote-step = refl

board-IsConsistent_example : IsConsistent voted
board-IsConsistent_example =
    board-IsConsistent ℕ print_post first_post print_comment first_comment {s = ([], posted)}
      {s' = ([], voted)}
      (next {t = ([], posted)} here (voting 7 102 1 bob up (1, 0) refl vote-step))
      posted-IsConsistent

abbrev edit : PostRequest
edit = record {
  title = "hi";
  body = "second";
  post_type = "자유";
  characters = [];
  youtube_video_id = none;
}

abbrev edited : PostRow
edited = record post { title = "hi"; body = "second" }

edit-post :
    update_post 1 ann edit posted
    ≡ ok (
      record { id = 1; row = edited; comment_count = 0 },
      record posted { posts = (1, edited) ∷ [] },
    )
unfolding update_post Repository.update_post Repository.get_post insert count
    ensure_can_use_post_type ensure_can_manage_post
edit-post = refl

update_post-allowed_example :
    (old : PostRow) × (lookup 1 posted.posts ≡ some old)
    × (manages ann old ≡ true)
    × ((not (str_eq edit.post_type notice_post_type) || ann.admin) ≡ true)
    × (edited ≡ edited_post edit old)
    × ((id : ℕ)
        → lookup id ((1, edited) ∷ [])
          ≡ (if 1 == id then some (edited_post edit old) else lookup id posted.posts))
    × (posted.comments ≡ posted.comments)
    × (posted.thumbs ≡ posted.thumbs)
update_post-allowed_example =
    update_post-allowed 1 ann edit posted (record posted { posts = (1, edited) ∷ [] })
      (record { id = 1; row = edited; comment_count = 0 }) edit-post
