-- ===== src/Community/History.antt =====
-- The writes of community/router.py as steps of the stored data, in any order. A request that raises
-- is rolled back and is no step; the requests of a history do not overlap.
use tag2now_be.Prelude.{
  ℕ, String, Bool, true, not, ◌&&◌, ◌||◌, ◌≡◌, none, ok, arith, lookup, some, Result-cases,
  Option-cases, inl, inr, str_eq, if◌then◌else◌, ◌==◌, ap, ◌∙◌, lookup-insert,
}
use tag2now_be.Time.{Instant}
use tag2now_be.Idempotency.Store.{Session, on_tables}
use tag2now_be.Idempotency.Once.{run_once-tables, on_tables-inv}
use tag2now_be.Community.Rows.{AuthUser, PostRow, CommentRow, Direction, Tables}
use tag2now_be.Community.Rules.{notice_post_type, ensure_can_use_post_type, ensure_can_manage_post}
use tag2now_be.Community.Invariant.{IsConsistent}
use tag2now_be.Community.Repository
use tag2now_be.Community.Repository.{PostSummary, get_post, get_comment}
use tag2now_be.Community.Posts.{
  create_post-IsConsistent, update_post-IsConsistent, delete_post-IsConsistent, update_post-inv,
}
use tag2now_be.Community.Comments.{create_comment-IsConsistent, delete_comment-IsConsistent}
use tag2now_be.Community.Votes.{add_thumb-IsConsistent}
use tag2now_be.Community.Service.{
  PostRequest, CommentRequest, create_post, update_post, delete_post, create_comment,
  delete_comment, add_thumb,
}

-- Who may edit or delete a post.
abbrev pub manages : AuthUser → PostRow → Bool
manages user post =
    str_eq post.author user.username || (str_eq post.post_type notice_post_type && user.admin)

pub update_post-written :
    (post_id : ℕ) (user : AuthUser) (request : PostRequest) (db db' : Tables) (out : PostSummary)
    → update_post post_id user request db ≡ ok (out, db')
    → Repository.update_post post_id request.title request.body request.post_type request.characters
        request.youtube_video_id db
      ≡ ok (out, db')
unfolding update_post get_post
update_post-written post_id user request db db' out e =
    elim (Option-cases (lookup post_id db.posts)) [
      | inl missing ↦ absurd (ground arith)
      | inr (post, found) ↦ ground arith
    ]

abbrev pub edited_post : PostRequest → PostRow → PostRow
edited_post request post = record post {
  title = request.title;
  body = request.body;
  post_type = request.post_type;
  characters = request.characters;
  youtube_video_id = request.youtube_video_id;
}

-- Only a manager of the post as it is stored edits it, and only an admin makes or keeps it a notice.
-- The post is stored with the request's title, body, type, characters and video, its author, votes and
-- time as they were, and is answered so; every other post, the comments and the votes stay.
pub update_post-allowed :
    (post_id : ℕ) (user : AuthUser) (request : PostRequest) (db db' : Tables) (out : PostSummary)
    → update_post post_id user request db ≡ ok (out, db')
    → (post : PostRow) × (lookup post_id db.posts ≡ some post)
      × (manages user post ≡ true)
      × ((not (str_eq request.post_type notice_post_type) || user.admin) ≡ true)
      × (out.row ≡ edited_post request post)
      × ((id : ℕ)
          → lookup id db'.posts
            ≡ (if post_id == id then some (edited_post request post) else lookup id db.posts))
      × (db'.comments ≡ db.comments)
      × (db'.thumbs ≡ db.thumbs)
unfolding update_post get_post ensure_can_use_post_type ensure_can_manage_post
update_post-allowed post_id user request db db' out e =
    let (post, found, written, row) =
      update_post-inv post_id request.title request.body request.post_type request.characters
        request.youtube_video_id db db' out
        (update_post-written post_id user request db db' out e) in
    (
      post,
      found,
      ground arith,
      ground arith,
      row,
      λ id.
          ap (λ (t : Tables). lookup id t.posts) written
          ∙ lookup-insert post_id id out.row db.posts
          ∙ ap (λ r. if post_id == id then some r else lookup id db.posts) row,
      ap (λ (t : Tables). t.comments) written,
      ap (λ (t : Tables). t.thumbs) written,
    )

pub delete_post-written :
    (post_id : ℕ) (user : AuthUser) (db db' : Tables) (out : Unit {0})
    → delete_post post_id user db ≡ ok (out, db')
    → Repository.delete_post post_id db ≡ ok (out, db')
unfolding delete_post get_post
delete_post-written post_id user db db' out e = elim (Option-cases (lookup post_id db.posts)) [
  | inl missing ↦ absurd (ground arith)
  | inr (post, found) ↦ ground arith
]

pub delete_comment-written :
    (post_id comment_id : ℕ) (user : AuthUser) (now : Instant) (db db' : Tables) (out : Unit {0})
    → delete_comment post_id comment_id user now db ≡ ok (out, db')
    → Repository.delete_comment comment_id now db ≡ ok (out, db')
unfolding delete_comment get_comment
delete_comment-written post_id comment_id user now db db' out e =
    elim (Option-cases (lookup comment_id db.comments)) [
      | inl missing ↦ absurd (ground arith)
      | inr (comment, found) ↦ ground arith
    ]

module _ (Json : Type 0) (post_print : String → PostRequest → String)
    (post_json : ℕ × PostRow → Json) (comment_print : String → CommentRequest → String)
    (comment_json : ℕ × CommentRow → Json) where
  pub data Step (s s' : Session Json Tables) : Type 0 where
    posting :
        (id : ℕ) (at : Instant) (author : AuthUser) (request : PostRequest) (key : String)
        (answer : Json)
        → lookup id s.1.posts ≡ none
        → create_post Json post_print post_json id at author request key s ≡ ok (answer, s')
        → Step s s'
    editing :
        (post_id : ℕ) (user : AuthUser) (request : PostRequest) (out : PostSummary)
        → on_tables Json (update_post post_id user request) s ≡ ok (out, s')
        → Step s s'
    deleting :
        (post_id : ℕ) (user : AuthUser) (out : Unit {0})
        → on_tables Json (delete_post post_id user) s ≡ ok (out, s')
        → Step s s'
    commenting :
        (id : ℕ) (at : Instant) (author : AuthUser) (request : CommentRequest) (key : String)
        (answer : Json)
        → lookup id s.1.comments ≡ none
        → create_comment Json comment_print comment_json id at author request key s
          ≡ ok (answer, s')
        → Step s s'
    uncommenting :
        (post_id comment_id : ℕ) (user : AuthUser) (now : Instant) (out : Unit {0})
        → on_tables Json (delete_comment post_id comment_id user now) s ≡ ok (out, s')
        → Step s s'
    voting :
        (id : ℕ) (at : Instant) (post_id : ℕ) (voter : AuthUser) (direction : Direction)
        (out : ℕ × ℕ)
        → lookup id s.1.thumbs ≡ none
        → on_tables Json (add_thumb id at post_id voter direction) s ≡ ok (out, s')
        → Step s s'

  pub data Reach (s : Session Json Tables) : Session Json Tables → Type 0 where
    here : Reach s s
    next : {t u : Session Json Tables} → Reach s t → Step t u → Reach s u

  create_post-kept :
      (id : ℕ) (at : Instant) (author : AuthUser) (request : PostRequest) (key : String)
      (answer : Json) (s s' : Session Json Tables)
      → IsConsistent s.1
      → lookup id s.1.posts ≡ none
      → create_post Json post_print post_json id at author request key s ≡ ok (answer, s')
      → IsConsistent s'.1
  unfolding create_post
  create_post-kept id at author request key answer s s' c fresh e =
      elim (Result-cases (ensure_can_use_post_type request.post_type author)) [
        | inl (allowed, checked) ↦
            elim (run_once-tables Json post_print post_json author.username key "community.post"
              request
              (Repository.create_post id at author.username request.title request.body
                request.post_type request.characters request.youtube_video_id)
              s s' answer (ground arith)) [
                | inl same ↦ rw same c
                | inr (out, written) ↦
                    create_post-IsConsistent id at author.username request.title request.body
                      request.post_type request.characters request.youtube_video_id s.1 s'.1 out c
                      fresh written
              ]
        | inr (problem, refused) ↦ absurd (ground arith)
      ]

  create_comment-kept :
      (id : ℕ) (at : Instant) (author : AuthUser) (request : CommentRequest) (key : String)
      (answer : Json) (s s' : Session Json Tables)
      → IsConsistent s.1
      → lookup id s.1.comments ≡ none
      → create_comment Json comment_print comment_json id at author request key s ≡ ok (answer, s')
      → IsConsistent s'.1
  unfolding create_comment
  create_comment-kept id at author request key answer s s' c fresh e =
      elim (run_once-tables Json comment_print comment_json author.username key "community.comment"
        request
        (Repository.create_comment id at request.post_id author.username request.body
          request.parent_id)
        s s' answer e) [
          | inl same ↦ rw same c
          | inr (out, written) ↦
              create_comment-IsConsistent id at request.post_id author.username request.body
                request.parent_id s.1 s'.1 out c fresh written
        ]

  Step-IsConsistent :
      {s s' : Session Json Tables} → Step s s' → IsConsistent s.1 → IsConsistent s'.1
  unfolding add_thumb
  Step-IsConsistent {s} {s'} (posting id at author request key answer fresh e) c =
      create_post-kept id at author request key answer s s' c fresh e
  Step-IsConsistent {s} {s'} (editing post_id user request out e) c =
      update_post-IsConsistent post_id request.title request.body request.post_type
        request.characters request.youtube_video_id s.1 s'.1 out c
        (update_post-written post_id user request s.1 s'.1 out
          (on_tables-inv Json (update_post post_id user request) s s' out e))
  Step-IsConsistent {s} {s'} (deleting post_id user out e) c =
      delete_post-IsConsistent post_id s.1 s'.1 out c (
        delete_post-written post_id user s.1 s'.1 out
          (on_tables-inv Json (delete_post post_id user) s s' out e))
  Step-IsConsistent {s} {s'} (commenting id at author request key answer fresh e) c =
      create_comment-kept id at author request key answer s s' c fresh e
  Step-IsConsistent {s} {s'} (uncommenting post_id comment_id user now out e) c =
      delete_comment-IsConsistent comment_id now s.1 s'.1 out c (
        delete_comment-written post_id comment_id user now s.1 s'.1 out
          (on_tables-inv Json (delete_comment post_id comment_id user now) s s' out e))
  Step-IsConsistent {s} {s'} (voting id at post_id voter direction out fresh e) c =
      add_thumb-IsConsistent id at post_id voter.username direction s.1 s'.1 out c fresh
        (on_tables-inv Json (add_thumb id at post_id voter direction) s s' out e)

  -- Whatever accepted writes are served, in whatever order, consistent tables stay consistent: the
  -- tallies are the votes, no account votes twice on a post, and replies hang under top-level comments
  -- of their post.
  pub board-IsConsistent :
      {s s' : Session Json Tables} → Reach s s' → IsConsistent s.1 → IsConsistent s'.1
  board-IsConsistent here c = c
  board-IsConsistent (next r step) c = Step-IsConsistent step (board-IsConsistent r c)
