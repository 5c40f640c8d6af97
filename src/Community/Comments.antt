-- ===== src/Community/Comments.antt =====
-- What posting and deleting comments keep, and when each succeeds.
use tag2now_be.Prelude.{
  ℕ, String, ◌≡◌, refl, true, none, some, ok, Option, arith, lookup, insert, is_some,
  insert-IsKeyed, lookup-insert, ◌==◌, inl, inr, Bool-cases, Option-cases, Result-cases,
}
use tag2now_be.Time.{Instant}
use tag2now_be.Community.Rows.{CommentRow, Tables, is_live_comment}
use tag2now_be.Community.Invariant.{IsConsistent, IsPlaced-mono}
use tag2now_be.Community.Repository.{create_comment, ensure_repliable, delete_comment}

-- A parent that takes a reply: a live, top-level comment of the same post.
abbrev pub TakesReply : Tables → ℕ → Option ℕ → Type 0
TakesReply db post_id none = Unit
TakesReply db post_id (some p) =
    (parent : CommentRow) × (lookup p db.comments ≡ some parent)
    × (is_live_comment post_id parent ≡ true)
    × (parent.parent_id ≡ none)

ensure_repliable-inv :
    (post_id : ℕ) (parent_id : Option ℕ) (db db' : Tables) (out : Unit {0})
    → ensure_repliable post_id parent_id db ≡ ok (out, db')
    → (db' ≡ db) × TakesReply db post_id parent_id
unfolding ensure_repliable
ensure_repliable-inv post_id none db db' out e = (ground arith, tt)
ensure_repliable-inv post_id (some p) db db' out e = elim (Option-cases (lookup p db.comments)) [
  | inl missing ↦ absurd (ground arith)
  | inr (parent, found) ↦ elim (Option-cases parent.parent_id) [
    | inl top ↦ (ground arith, (parent, found, ground arith, top))
    | inr (q, deep) ↦ absurd (ground arith)
  ]
]

module _ (id : ℕ) (at : Instant) (post_id : ℕ) (author body : String) (parent_id : Option ℕ) where
  abbrev pub new_comment : CommentRow
  new_comment = record {
    post_id = post_id;
    parent_id = parent_id;
    author = author;
    body = body;
    created_at = at;
    deleted_at = none;
  }

  pub create_comment-inv :
      (db db' : Tables) (out : ℕ × CommentRow)
      → create_comment id at post_id author body parent_id db ≡ ok (out, db')
      → (is_some (lookup post_id db.posts) ≡ true)
        × TakesReply db post_id parent_id
        × (out ≡ (id, new_comment))
        × (db' ≡ record db { comments = insert id new_comment db.comments })
  unfolding create_comment
  create_comment-inv db db' out e = elim (Option-cases (lookup post_id db.posts)) [
    | inl missing ↦ absurd (ground arith)
    | inr (post, found) ↦ elim (Result-cases (ensure_repliable post_id parent_id db)) [
      | inl ((out', db''), replies) ↦
          let (same, takes) = ensure_repliable-inv post_id parent_id db db'' out' replies in
          (ground arith, takes, ground (arith, same), ground (arith, same))
      | inr (problem, refused) ↦ absurd (ground arith)
    ]
  ]

  put_comment-IsConsistent :
      (db : Tables)
      → IsConsistent db
      → lookup id db.comments ≡ none
      → is_some (lookup post_id db.posts) ≡ true
      → TakesReply db post_id parent_id
      → IsConsistent (record db { comments = insert id new_comment db.comments })
  put_comment-IsConsistent db c fresh posted takes = record {
    posts_keyed = c.posts_keyed;
    comments_keyed = insert-IsKeyed id new_comment db.comments c.comments_keyed;
    tallied = c.tallied;
    unvoted = c.unvoted;
    votes_once = c.votes_once;
    placed = λ k m e. elim (Bool-cases (id == k)) [
      | inl same ↦
          let written : new_comment ≡ m =
            ground (arith, lookup-insert id k new_comment db.comments) in
          rw (← written) (record {
            on_post = posted;
            under = λ p named.
                let parent_of : TakesReply db post_id (some p) = rw named at takes in
                let (parent, found, live, top) = parent_of in
                (
                  parent,
                  ground (arith, lookup-insert id p new_comment db.comments),
                  ground arith,
                  top,
                );
          })
      | inr other ↦
          IsPlaced-mono (λ h. h)
            (λ p parent found same.
              (parent, ground (arith, lookup-insert id p new_comment db.comments), refl, refl))
            (c.placed k m (ground (arith, lookup-insert id k new_comment db.comments)))
    ];
  }

  -- A comment is posted under a fresh id.
  pub create_comment-IsConsistent :
      (db db' : Tables) (out : ℕ × CommentRow)
      → IsConsistent db
      → lookup id db.comments ≡ none
      → create_comment id at post_id author body parent_id db ≡ ok (out, db')
      → IsConsistent db'
  create_comment-IsConsistent db db' out c fresh e =
      let (posted, takes, answer, written) = create_comment-inv db db' out e in
      rw written (put_comment-IsConsistent db c fresh posted takes)

-- A parent is still there, on its post and under what it was under.
parent_kept :
    (db : Tables) (id : ℕ) (old new : CommentRow)
    → lookup id db.comments ≡ some old
    → new.post_id ≡ old.post_id
    → new.parent_id ≡ old.parent_id
    → (p : ℕ) (parent : CommentRow) → lookup p db.comments ≡ some parent
    → (parent' : CommentRow) × (lookup p (insert id new db.comments) ≡ some parent')
      × (parent'.post_id ≡ parent.post_id)
      × (parent'.parent_id ≡ parent.parent_id)
parent_kept db id old new found same_post same_parent p parent at = elim (Bool-cases (id == p)) [
  | inl same ↦ (new, ground (arith, lookup-insert id p new db.comments), ground arith, ground arith)
  | inr other ↦ (parent, ground (arith, lookup-insert id p new db.comments), refl, refl)
]

-- A comment that is written over in its place.
put_over-IsConsistent :
    (db : Tables) (id : ℕ) (old new : CommentRow)
    → IsConsistent db
    → lookup id db.comments ≡ some old
    → new.post_id ≡ old.post_id
    → new.parent_id ≡ old.parent_id
    → IsConsistent (record db { comments = insert id new db.comments })
put_over-IsConsistent db id old new c found same_post same_parent = record {
  posts_keyed = c.posts_keyed;
  comments_keyed = insert-IsKeyed id new db.comments c.comments_keyed;
  tallied = c.tallied;
  unvoted = c.unvoted;
  votes_once = c.votes_once;
  placed = λ k m e. elim (Bool-cases (id == k)) [
    | inl same ↦
        let written : new ≡ m = ground (arith, lookup-insert id k new db.comments) in
        let place = c.placed id old found in
        rw (← written) (record {
          on_post = rw same_post place.on_post;
          under = λ p named.
              let (parent, at, on, top) = place.under p (ground arith) in
              let (parent', at', on', top') =
                parent_kept db id old new found same_post same_parent p parent at in
              (parent', at', ground arith, ground arith);
        })
    | inr other ↦
        IsPlaced-mono (λ h. h)
          (λ p parent at on. parent_kept db id old new found same_post same_parent p parent at)
          (c.placed k m (ground (arith, lookup-insert id k new db.comments)))
  ];
}

pub delete_comment-IsConsistent :
    (comment_id : ℕ) (now : Instant) (db db' : Tables) (out : Unit {0})
    → IsConsistent db
    → delete_comment comment_id now db ≡ ok (out, db')
    → IsConsistent db'
unfolding delete_comment
delete_comment-IsConsistent comment_id now db db' out c e =
    elim (Option-cases (lookup comment_id db.comments)) [
      | inl missing ↦ let same : db' ≡ db = ground arith in rw same c
      | inr (old, found) ↦
          let new : CommentRow = record old { deleted_at = some now } in
          let written : db' ≡ record db { comments = insert comment_id new db.comments } =
            ground arith in
          rw written (put_over-IsConsistent db comment_id old new c found refl refl)
    ]
