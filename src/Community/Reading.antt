-- ===== src/Community/Reading.antt =====
-- What `get_post` of community/service.py reads from consistent tables.
use tag2now_be.Prelude.{
  ℕ, ◌≤◌, Bool, ◌≡◌, ◌∙◌, refl, true, ◌&&◌, none, some, List, map, ok, arith, ◌==◌, count_of,
  count_of-map, count_of-sort_by, All, All-mono, All-map, All-sort_by, All-lookup, All-select_of,
  passing, count_of-select_key, lookup, select, sort_by, is_none, Option-cases, inl, inr,
}
use tag2now_be.Community.Rows.{CommentRow, Tables, is_live_comment}
use tag2now_be.Community.Rules.{Comment, is_live, is_parent, tombstone, hide_deleted, nest_replies}
use tag2now_be.Community.Invariant.{IsConsistent}
use tag2now_be.Community.Repository.{comment_of, older, get_post, get_post_comments}
use tag2now_be.Community.Service.{PostDetail, load_post}
use tag2now_be.Community.Threads.{
  flat, IsThreaded, nest_replies-whole, hide_deleted-count, hide_deleted-once, hide_deleted-All,
}

abbrev on_post : ℕ → CommentRow → Bool
on_post post_id c = c.post_id == post_id

-- The comments of a post as the repository reads them.
abbrev read_comments : ℕ → Tables → List Comment
read_comments post_id db =
    map comment_of (sort_by older (select (λ _. on_post post_id) db.comments))

module _ (post_id : ℕ) (db : Tables) (c : IsConsistent db) where
  read-count :
      (q : CommentRow → Bool) (k : ℕ)
      → count_of (λ m. q m.row && m.id == k) (read_comments post_id db)
        ≡ passing (λ _ v. on_post post_id v && q v) k (lookup k db.comments)
  read-count q k =
      count_of-map comment_of (λ m. q m.row && m.id == k)
        (sort_by older (select (λ _. on_post post_id) db.comments))
      ∙ count_of-sort_by (λ e. q e.1 && e.0 == k) older (select (λ _. on_post post_id) db.comments)
      ∙ count_of-select_key (on_post post_id) q k db.comments c.comments_keyed

  -- A parent that a comment of the tables names is a top-level comment there.
  top_parent :
      (r t : ℕ × CommentRow)
      → lookup r.0 db.comments ≡ some r.1
      → lookup t.0 db.comments ≡ some t.1
      → is_parent r.1.parent_id t.0 ≡ true
      → t.1.parent_id ≡ none
  top_parent r t at_r at_t e = elim (Option-cases r.1.parent_id) [
    | inl none_named ↦ absurd (ground arith)
    | inr (p, named) ↦
        let (parent, found, on, top) = (c.placed r.0 r.1 at_r).under p named in
        let same : p ≡ t.0 = ground arith in ground (arith, same)
  ]

  -- The comment's row has the parent that it shows.
  abbrev HasRow : Comment → Type 0
  HasRow m =
      (row : CommentRow) × (lookup m.id db.comments ≡ some row) × (row.parent_id ≡ m.row.parent_id)

  HasRow-tombstone : (m : Comment) → HasRow m → HasRow (tombstone m)
  unfolding tombstone
  HasRow-tombstone m h = h

  All-HasRow : All HasRow (hide_deleted (read_comments post_id db))
  All-HasRow = hide_deleted-All HasRow (read_comments post_id db) HasRow-tombstone (
      All-map comment_of HasRow (sort_by older (select (λ _. on_post post_id) db.comments)) (
        All-sort_by older (λ e. HasRow (comment_of e)) (select (λ _. on_post post_id) db.comments)
          (All-select_of (λ e. HasRow (comment_of e)) (λ _. on_post post_id) db.comments
            (All-lookup (λ e. HasRow (comment_of e)) db.comments c.comments_keyed
              (λ k v e. (v, e, refl))))))

  top_shown :
      (r t : Comment)
      → HasRow r
      → HasRow t
      → is_parent r.row.parent_id t.id ≡ true
      → t.row.parent_id ≡ none
  top_shown r t (r_row, at_r, same_r) (t_row, at_t, same_t) e =
      let top = top_parent (r.id, r_row) (t.id, t_row) at_r at_t in ground (arith, top)

  read_once : (q : ℕ) → count_of (λ m. m.id == q) (read_comments post_id db) ≤ 1
  read_once q = ground (arith, read-count (λ _. true) q)

  IsThreaded-read : IsThreaded (hide_deleted (read_comments post_id db))
  IsThreaded-read = record {
    once = λ q.
        let all = read_comments post_id db in omega (arith, hide_deleted-once q all, read_once q);
    shallow =
        All-mono (hide_deleted (read_comments post_id db))
          (λ r has_r.
            All-mono (hide_deleted (read_comments post_id db))
              (λ t has_t. top_shown r t has_r has_t) All-HasRow)
          All-HasRow;
  }

  load_post-threads :
      (detail : PostDetail) (db' : Tables)
      → load_post post_id db ≡ ok (detail, db')
      → detail.comments ≡ nest_replies (hide_deleted (read_comments post_id db))
  unfolding load_post get_post get_post_comments
  load_post-threads detail db' e = elim (Option-cases (lookup post_id db.posts)) [
    | inl missing ↦ absurd (ground arith)
    | inr (post, found) ↦ ground arith
  ]

  -- Reading a post from consistent tables shows each of its live comments exactly once, at the head of
  -- a thread or as a reply, and no other live comment.
  pub load_post-whole :
      (detail : PostDetail) (db' : Tables) (k : ℕ)
      → load_post post_id db ≡ ok (detail, db')
      → count_of (λ m. is_live m && m.id == k) (flat detail.comments)
        ≡ passing (λ _ v. is_live_comment post_id v) k (lookup k db.comments)
  load_post-whole detail db' k e =
      let all = read_comments post_id db in
      let threads : detail.comments ≡ nest_replies (hide_deleted all) =
        load_post-threads detail db' e in
      rw threads (
        nest_replies-whole (λ m. is_live m && m.id == k) (hide_deleted all) IsThreaded-read
        ∙ hide_deleted-count (λ m. m.id == k) all
        ∙ read-count (λ v. is_none v.deleted_at) k)
