-- ===== src/Community/Posts.antt =====
-- What writing, editing and deleting a post keep.
use tag2now_be.Prelude.{
  ℕ, String, ◌≡◌, ◌≢◌, refl, false, not, none, some, ok, Option, List, arith, lookup, insert,
  insert-IsKeyed, lookup-insert, lookup-erase, erase-IsKeyed, select-IsKeyed, lookup-select,
  count-select_kept, count-select_none, count-le_select, ◌==◌, inl, inr, Bool-cases, Option-cases,
}
use tag2now_be.Time.{Instant}
use tag2now_be.Community.Rows.{PostRow, up, down, Tables, is_vote, is_vote_by}
use tag2now_be.Community.Invariant.{IsTallied, IsConsistent, IsPlaced-mono}
use tag2now_be.Community.Repository.{
  PostSummary, without_post, create_post, update_post, delete_post,
}

-- A post that is written with the tallies that its votes have.
pub IsConsistent-put :
    (db : Tables) (id : ℕ) (post : PostRow)
    → IsConsistent db
    → IsTallied db.thumbs id post
    → IsConsistent (record db { posts = insert id post db.posts })
IsConsistent-put db id post c t = record {
  posts_keyed = insert-IsKeyed id post db.posts c.posts_keyed;
  comments_keyed = c.comments_keyed;
  tallied = λ j p e. elim (Bool-cases (id == j)) [
    | inl same ↦
        let at : id ≡ j = ground arith in
        let written : post ≡ p = ground (arith, lookup-insert id j post db.posts) in
        rw (← at, ← written) t
    | inr other ↦ c.tallied j p (ground (arith, lookup-insert id j post db.posts))
  ];
  unvoted = λ j d e. c.unvoted j d (ground (arith, lookup-insert id j post db.posts));
  votes_once = c.votes_once;
  placed = λ k comment e.
      IsPlaced-mono (λ h. ground (arith, lookup-insert id comment.post_id post db.posts))
        (λ p parent found same. (parent, found, refl, refl)) (c.placed k comment e);
}

module _ (id : ℕ) (at : Instant) (author title body post_type : String) (characters : List String)
    (youtube_video_id : Option String) where
  -- A new post starts with no votes, and no account has voted on its fresh id.
  pub create_post-IsConsistent :
      (db db' : Tables) (out : ℕ × PostRow)
      → IsConsistent db
      → lookup id db.posts ≡ none
      → create_post id at author title body post_type characters youtube_video_id db ≡ ok (out, db')
      → IsConsistent db'
  unfolding create_post
  create_post-IsConsistent db db' out c fresh e =
      let written : db' ≡ record db { posts = insert id out.1 db.posts } = ground arith in
      rw written (
        IsConsistent-put db id out.1 c (record {
          ups = ground (arith, c.unvoted id up fresh);
          downs = ground (arith, c.unvoted id down fresh);
        }))

pub update_post-inv :
    (post_id : ℕ) (title body post_type : String) (characters : List String)
    (youtube_video_id : Option String) (db db' : Tables) (out : PostSummary)
    → update_post post_id title body post_type characters youtube_video_id db ≡ ok (out, db')
    → (post : PostRow) × (lookup post_id db.posts ≡ some post)
      × (db' ≡ record db { posts = insert post_id out.row db.posts })
      × (out.row ≡ record post {
        title = title;
        body = body;
        post_type = post_type;
        characters = characters;
        youtube_video_id = youtube_video_id;
      })
unfolding update_post
update_post-inv post_id title body post_type characters youtube_video_id db db' out e =
    elim (Option-cases (lookup post_id db.posts)) [
      | inl missing ↦ absurd (ground arith)
      | inr (post, found) ↦ (post, found, ground arith, ground arith)
    ]

pub update_post-IsConsistent :
    (post_id : ℕ) (title body post_type : String) (characters : List String)
    (youtube_video_id : Option String) (db db' : Tables) (out : PostSummary)
    → IsConsistent db
    → update_post post_id title body post_type characters youtube_video_id db ≡ ok (out, db')
    → IsConsistent db'
update_post-IsConsistent post_id title body post_type characters youtube_video_id db db' out c e =
    let (post, found, written, row) =
      update_post-inv post_id title body post_type characters youtube_video_id db db' out e in
    let old = c.tallied post_id post found in
    rw written (
      IsConsistent-put db post_id out.row c
        (record { ups = ground (arith, old.ups); downs = ground (arith, old.downs) }))

without_post-IsConsistent :
    (post_id : ℕ) (db : Tables) → IsConsistent db → IsConsistent (without_post post_id db)
without_post-IsConsistent post_id db c = record {
  posts_keyed = erase-IsKeyed post_id db.posts c.posts_keyed;
  comments_keyed = select-IsKeyed (λ _ m. not (m.post_id == post_id)) db.comments c.comments_keyed;
  tallied = λ j p e.
      let old = c.tallied j p (ground (arith, lookup-erase post_id j db.posts)) in
      let other : j ≢ post_id = λ same. ground (arith, lookup-erase post_id j db.posts) in
      record {
        ups = ground (
          arith,
          old.ups,
          count-select_kept (λ t. not (t.post_id == post_id)) (is_vote j up) db.thumbs
              (λ v h. ground arith),
        );
        downs = ground (
          arith,
          old.downs,
          count-select_kept (λ t. not (t.post_id == post_id)) (is_vote j down) db.thumbs
              (λ v h. ground arith),
        );
      };
  unvoted = λ j d e. elim (Bool-cases (j == post_id)) [
    | inl same ↦
        count-select_none (λ t. not (t.post_id == post_id)) (is_vote j d) db.thumbs
          (λ v h. ground arith)
    | inr other ↦ ground (
      arith,
      count-select_kept (λ t. not (t.post_id == post_id)) (is_vote j d) db.thumbs
          (λ v h. ground arith),
      c.unvoted j d (ground (arith, lookup-erase post_id j db.posts)),
    )
  ];
  votes_once = λ j voter. omega (
    arith,
    c.votes_once j voter,
    count-le_select (λ t. not (t.post_id == post_id)) (is_vote_by j voter) db.thumbs,
  );
  placed = λ k m e.
      let kept : (lookup k db.comments ≡ some m) × (m.post_id == post_id ≡ false) =
        ground
          (arith, lookup-select (λ m. not (m.post_id == post_id)) k db.comments c.comments_keyed) in
      IsPlaced-mono (λ h. ground (arith, lookup-erase post_id m.post_id db.posts))
        (λ p parent found same. (
          parent,
          ground (
            arith,
            lookup-select (λ m. not (m.post_id == post_id)) p db.comments c.comments_keyed,
          ),
          refl,
          refl,
        ))
        (c.placed k m kept.0);
}

pub delete_post-IsConsistent :
    (post_id : ℕ) (db db' : Tables) (out : Unit {0})
    → IsConsistent db
    → delete_post post_id db ≡ ok (out, db')
    → IsConsistent db'
unfolding delete_post
delete_post-IsConsistent post_id db db' out c e =
    let written : db' ≡ without_post post_id db = ground arith in
    rw written (without_post-IsConsistent post_id db c)
