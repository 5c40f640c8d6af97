-- ===== src/Community/Invariant.antt =====
-- What the tables of the board keep true: the votes counted on a post are the votes cast, each
-- account votes once on a post, and a reply hangs under a top-level comment of its own post.
use tag2now_be.Prelude.{
  ℕ, ◌≤◌, String, ◌≡◌, ◌∙◌, true, none, some, Table, lookup, count, IsKeyed, is_some,
}
use tag2now_be.Community.Rows.{
  PostRow, CommentRow, ThumbRow, Direction, up, down, Tables, is_vote, is_vote_by,
}

-- The post's tallies are the counts of its votes.
pub record IsTallied (thumbs : Table ThumbRow) (id : ℕ) (post : PostRow) : Type 0 where
  pub ups : post.thumbs_up ≡ count (is_vote id up) thumbs
  pub downs : post.thumbs_down ≡ count (is_vote id down) thumbs

pub record IsPlaced (posts : Table PostRow) (comments : Table CommentRow) (c : CommentRow)
    : Type 0 where
  pub on_post : is_some (lookup c.post_id posts) ≡ true
  pub under :
      (p : ℕ)
      → c.parent_id ≡ some p
      → (parent : CommentRow) × (lookup p comments ≡ some parent)
        × (parent.post_id ≡ c.post_id)
        × (parent.parent_id ≡ none)

pub record IsConsistent (db : Tables) : Type 0 where
  pub posts_keyed : IsKeyed db.posts
  pub comments_keyed : IsKeyed db.comments
  pub tallied :
      (id : ℕ) (post : PostRow) → lookup id db.posts ≡ some post → IsTallied db.thumbs id post
  pub unvoted :
      (id : ℕ) (d : Direction) → lookup id db.posts ≡ none → count (is_vote id d) db.thumbs ≡ 0
  pub votes_once : (id : ℕ) (voter : String) → count (is_vote_by id voter) db.thumbs ≤ 1
  pub placed :
      (id : ℕ) (c : CommentRow) → lookup id db.comments ≡ some c → IsPlaced db.posts db.comments c

-- Comments that keep their posts, parents and places are placed in any tables with as many posts.
pub IsPlaced-mono :
    {posts posts' : Table PostRow} {comments comments' : Table CommentRow} {c : CommentRow}
    → (is_some (lookup c.post_id posts) ≡ true → is_some (lookup c.post_id posts') ≡ true)
    → ((p : ℕ) (parent : CommentRow)
        → lookup p comments ≡ some parent
        → parent.post_id ≡ c.post_id
        → (parent' : CommentRow) × (lookup p comments' ≡ some parent')
          × (parent'.post_id ≡ parent.post_id)
          × (parent'.parent_id ≡ parent.parent_id))
    → IsPlaced posts comments c
    → IsPlaced posts' comments' c
IsPlaced-mono keeps_post keeps_parent h = record {
  on_post = keeps_post h.on_post;
  under = λ p e.
      let (parent, found, same, top) = h.under p e in
      let (parent', found', same', top') = keeps_parent p parent found same in
      (parent', found', same' ∙ same, top' ∙ top);
}
