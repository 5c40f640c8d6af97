-- ===== src/Community/Votes.antt =====
-- When a vote counts, and that each account has one on a post.
use tag2now_be.Prelude.{
  ℕ, ◌+◌, String, ◌≡◌, refl, none, some, ok, err, arith, Table, lookup, insert, count, find?, to_ℕ,
  count-insert_new, count-find_none, find-insert_new, insert-IsKeyed, lookup-insert, ◌==◌, inl, inr,
  Bool-cases, Option-cases, eq_iff,
}
use tag2now_be.Time.{Instant}
use tag2now_be.Community.Rows.{
  PostRow, ThumbRow, Direction, up, down, same_direction, Tables, is_vote, is_vote_by,
}
use tag2now_be.Community.Invariant.{IsConsistent}
use tag2now_be.Community.Repository.{already_voted, add_thumb}

module _ (id : ℕ) (at : Instant) (post_id : ℕ) (voter : String) (direction : Direction) where
  abbrev pub new_vote : ThumbRow
  new_vote = record { post_id = post_id; voter = voter; direction = direction; created_at = at }

  abbrev voted_thumbs : Tables → Table ThumbRow
  voted_thumbs db = insert id new_vote db.thumbs

  abbrev pub voted_post : Tables → PostRow → PostRow
  voted_post db post = record post {
    thumbs_up = count (is_vote post_id up) (voted_thumbs db);
    thumbs_down = count (is_vote post_id down) (voted_thumbs db);
  }

  abbrev pub voted_tables : Tables → PostRow → Tables
  voted_tables db post = record db {
    thumbs = voted_thumbs db;
    posts = insert post_id (voted_post db post) db.posts;
  }

  pub add_thumb-inv :
      (db db' : Tables) (out : ℕ × ℕ)
      → add_thumb id at post_id voter direction db ≡ ok (out, db')
      → (post : PostRow) × (lookup post_id db.posts ≡ some post)
        × (find? (is_vote_by post_id voter) db.thumbs ≡ none)
        × (out ≡ ((voted_post db post).thumbs_up, (voted_post db post).thumbs_down))
        × (db' ≡ voted_tables db post)
  unfolding add_thumb
  add_thumb-inv db db' out e = elim (Option-cases (lookup post_id db.posts)) [
    | inl missing ↦ absurd (ground arith)
    | inr (post, found) ↦ elim (Option-cases (find? (is_vote_by post_id voter) db.thumbs)) [
      | inl first ↦ (post, found, first, ground arith, ground arith)
      | inr (vote, again) ↦ absurd (ground arith)
    ]
  ]

  thumbs-IsConsistent :
      (db : Tables) (post : PostRow)
      → IsConsistent db
      → lookup id db.thumbs ≡ none
      → lookup post_id db.posts ≡ some post
      → find? (is_vote_by post_id voter) db.thumbs ≡ none
      → IsConsistent (voted_tables db post)
  thumbs-IsConsistent db post c fresh found first = record {
    posts_keyed = insert-IsKeyed post_id (voted_post db post) db.posts c.posts_keyed;
    comments_keyed = c.comments_keyed;
    tallied = λ j p e. elim (Bool-cases (post_id == j)) [
      | inl same ↦
          let at : post_id ≡ j = ground arith in
          let written : voted_post db post ≡ p =
            ground (arith, lookup-insert post_id j (voted_post db post) db.posts) in
          rw (← at, ← written) (record { ups = refl; downs = refl })
      | inr other ↦
          let old =
            c.tallied j p (ground (arith, lookup-insert post_id j (voted_post db post) db.posts)) in
          record {
            ups = ground (arith, old.ups, count-insert_new (is_vote j up) id new_vote db.thumbs);
            downs =
                ground (arith, old.downs, count-insert_new (is_vote j down) id new_vote db.thumbs);
          }
    ];
    unvoted = λ j d e. ground (
      arith,
      lookup-insert post_id j (voted_post db post) db.posts,
      count-insert_new (is_vote j d) id new_vote db.thumbs,
      c.unvoted j d,
    );
    votes_once = λ j other. ground (
      arith,
      count-insert_new (is_vote_by j other) id new_vote db.thumbs,
      c.votes_once j other,
      count-find_none (is_vote_by post_id voter) db.thumbs first,
      eq_iff voter other,
    );
    placed = λ k m e.
        let place = c.placed k m e in
        record {
          on_post =
              ground (
                arith,
                place.on_post,
                lookup-insert post_id m.post_id (voted_post db post) db.posts,
              );
          under = place.under;
        };
  }

  -- A vote is cast under a fresh id.
  pub add_thumb-IsConsistent :
      (db db' : Tables) (out : ℕ × ℕ)
      → IsConsistent db
      → lookup id db.thumbs ≡ none
      → add_thumb id at post_id voter direction db ≡ ok (out, db')
      → IsConsistent db'
  add_thumb-IsConsistent db db' out c fresh e =
      let (post, found, first, answer, written) = add_thumb-inv db db' out e in
      rw written (thumbs-IsConsistent db post c fresh found first)

  -- On consistent tables, a vote that is accepted adds one to the tally of its direction and nothing
  -- to the other, and answers the new tallies.
  pub add_thumb-counted :
      (db db' : Tables) (up_count down_count : ℕ)
      → IsConsistent db
      → lookup id db.thumbs ≡ none
      → add_thumb id at post_id voter direction db ≡ ok ((up_count, down_count), db')
      → (post : PostRow) × (lookup post_id db.posts ≡ some post)
        × (up_count ≡ post.thumbs_up + to_ℕ (same_direction direction up))
        × (down_count ≡ post.thumbs_down + to_ℕ (same_direction direction down))
        × (lookup post_id db'.posts
            ≡ some (record post { thumbs_up = up_count; thumbs_down = down_count }))
  add_thumb-counted db db' up_count down_count c fresh e =
      let (post, found, first, answer, written) = add_thumb-inv db db' (up_count, down_count) e in
      let old = c.tallied post_id post found in
      (
        post,
        found,
        ground
            (arith, answer, old.ups, count-insert_new (is_vote post_id up) id new_vote db.thumbs),
        ground (
          arith,
          answer,
          old.downs,
          count-insert_new (is_vote post_id down) id new_vote db.thumbs,
        ),
        ground
            (arith, answer, written, lookup-insert post_id post_id (voted_post db post) db.posts),
      )

  voted-refused :
      (db : Tables) (post : PostRow) (id' : ℕ) (at' : Instant) (direction' : Direction)
      → lookup id db.thumbs ≡ none
      → find? (is_vote_by post_id voter) db.thumbs ≡ none
      → add_thumb id' at' post_id voter direction' (voted_tables db post) ≡ err already_voted
  unfolding add_thumb
  voted-refused db post id' at' direction' fresh first = ground (
    arith,
    lookup-insert post_id post_id (voted_post db post) db.posts,
    find-insert_new (is_vote_by post_id voter) id new_vote db.thumbs,
    eq_iff voter voter,
  )

  -- A vote is final: after an accepted one, another vote of the account on the post is refused,
  -- whatever its direction.
  pub add_thumb-final :
      (db db' : Tables) (out : ℕ × ℕ) (id' : ℕ) (at' : Instant) (direction' : Direction)
      → lookup id db.thumbs ≡ none
      → add_thumb id at post_id voter direction db ≡ ok (out, db')
      → add_thumb id' at' post_id voter direction' db' ≡ err already_voted
  add_thumb-final db db' out id' at' direction' fresh e =
      let (post, found, first, answer, written) = add_thumb-inv db db' out e in
      rw written (voted-refused db post id' at' direction' fresh first)
