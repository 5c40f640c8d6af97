-- ===== src/Reservation/Comments.antt =====
-- The comments of reservation/adapters/postgresql.py.
use Prim.Native.String.{count as text_length}
use tag2now_be.Prelude.{
  ℕ, ◌≡◌, ◌↔◌, true, ok, arith, Option-cases, inl, inr, same_text, String, Bool, not, ◌&&◌, ◌||◌,
  none, some, List, map, err, raise_if, not_found, integrity_error, Tx, pure, gets, modify, lift,
  or_raise, ◌>>=◌, ◌>>◌, lookup, insert, select, sort_by, is_none, ltb, leb, ◌==◌, if◌then◌else◌,
  Error,
}
use tag2now_be.Time.{Instant}
use tag2now_be.Reservation.Domain.{ensure_commentable, ensure_comment_deletable_by}
use tag2now_be.Reservation.Rows.{CommentRow, Tables, Comment}
use tag2now_be.Reservation.Statements.{reservation_row, to_comment}

abbrev pub comment_missing : Error
comment_missing = not_found "Comment not found"

abbrev pub save_comment : ℕ → CommentRow → Tx Tables (Unit {0})
save_comment id row = modify λ db. record db { comments = insert id row db.comments }

-- `ORDER BY created_at, id`.
abbrev posted_before : ℕ × CommentRow → ℕ × CommentRow → Bool
posted_before (i, c) (j, d) =
    ltb c.created_at d.created_at || (c.created_at == d.created_at && ltb i j)

unfoldable pub list_comments : ℕ → Tx Tables (List Comment)
unfolding to_comment
list_comments reservation_id = gets λ db.
    map (λ (id, row). to_comment id row)
      (sort_by posted_before
        (select (λ _ c. c.reservation_id == reservation_id && is_none c.deleted_at) db.comments))

-- The insert of a comment, under the table's check `length(body) <= 500`.
abbrev insert_comment : ℕ → CommentRow → Tx Tables (Unit {0})
insert_comment id row =
    lift (raise_if (not (leb (text_length row.body) 500)) integrity_error) >> save_comment id row

unfoldable pub add_comment : ℕ → Instant → ℕ → String → String → String → Tx Tables Comment
add_comment id at reservation_id author_subject author body = do
  reservation ← reservation_row reservation_id
  lift (ensure_commentable reservation.status)
  let row : CommentRow = record {
    reservation_id = reservation_id;
    author = author;
    author_subject = some author_subject;
    body = body;
    created_at = at;
    deleted_at = none;
  }
  insert_comment id row
  pure (to_comment id row)

unfoldable pub delete_comment : ℕ → ℕ → String → Instant → Bool → Tx Tables (Unit {0})
delete_comment reservation_id comment_id subject now admin = do
  found ← gets (λ db. lookup comment_id db.comments)
  row ← or_raise found comment_missing
  lift (
      if not (row.reservation_id == reservation_id) || not (is_none row.deleted_at)
      then err comment_missing
      else ensure_comment_deletable_by row.author_subject subject admin)
  save_comment comment_id (record row { deleted_at = some now })

pub record IsDeletable (db : Tables) (reservation_id comment_id : ℕ) (subject : String)
    (admin : Bool) (row : CommentRow) : Type 0 where
  pub found : lookup comment_id db.comments ≡ some row
  pub here : row.reservation_id ≡ reservation_id
  pub not_deleted : row.deleted_at ≡ none
  pub allowed : same_text row.author_subject subject || admin ≡ true

module _ (reservation_id comment_id : ℕ) (subject : String) (now : Instant) (admin : Bool)
    (db : Tables) where
  abbrev pub without_comment : CommentRow → Tables
  without_comment row = record db {
    comments = insert comment_id (record row { deleted_at = some now }) db.comments;
  }

  pub delete_comment-deleted :
      (row : CommentRow)
      → IsDeletable db reservation_id comment_id subject admin row
      → delete_comment reservation_id comment_id subject now admin db ≡ ok (tt, without_comment row)
  unfolding delete_comment ensure_comment_deletable_by
  delete_comment-deleted row d = ground arith

  pub delete_comment-inv :
      (out : Unit {0}) (db' : Tables)
      → delete_comment reservation_id comment_id subject now admin db ≡ ok (out, db')
      → (row : CommentRow) × IsDeletable db reservation_id comment_id subject admin row
        × (db' ≡ without_comment row)
  unfolding delete_comment ensure_comment_deletable_by
  delete_comment-inv out db' e = elim (Option-cases (lookup comment_id db.comments)) [
    | inl missing ↦ absurd (ground arith)
    | inr (row, found) ↦ (
      row,
      record {
        found = found;
        here = ground arith;
        not_deleted = ground arith;
        allowed = ground arith;
      },
      ground arith,
    )
  ]

  -- Deleting a comment succeeds exactly for its author or an admin, on the reservation that the
  -- request names, and only once.
  pub delete_comment_iff :
      ((out : Unit {0}) × (db' : Tables) × (delete_comment reservation_id comment_id subject now
            admin db
          ≡ ok (out, db')))
      ↔ ((row : CommentRow) × IsDeletable db reservation_id comment_id subject admin row)
  delete_comment_iff = (
    λ (out, db', e). let (row, d, _) = delete_comment-inv out db' e in (row, d),
    λ (row, d). (_, _, delete_comment-deleted row d),
  )
