-- ===== src/Chat/Postgres.antt =====
-- chat/adapters/postgresql.py: messages in a table. The table's check that a body has at most 200
-- characters is the rule of the request model, so no body that reaches the table breaks it.
use mathlib.Core.List.{reverse}
use tag2now_be.Prelude.{
  ℕ, none, ◌==◌, if◌then◌else◌, ◌≡◌, refl, String, Bool, Option, some, List, map, arith, ltb, leb,
  Table, lookup, insert, erase, lookup-insert, lookup-erase, select, sort_by, take,
}
use tag2now_be.Time.{Instant}
use tag2now_be.Chat.Domain.{Message}
use tag2now_be.Chat.Repository.{ChatRepository}

-- `MessageRow` is the `Message` under its id.
abbrev pub Rows : Type 0
Rows = Table Message

-- `ORDER BY id DESC`.
abbrev newer : ℕ × Message → ℕ × Message → Bool
newer (i, _) (j, _) = ltb j i

abbrev message_of : ℕ × Message → Message
message_of e = e.1

unfoldable pub append : ℕ → String → String → String → Instant → Bool → Rows → Message × Rows
append id author_username author_online_name body created_at author_admin rows =
    let m : Message = record {
      id = id;
      author_username = author_username;
      author_online_name = author_online_name;
      body = body;
      created_at = created_at;
      author_admin = author_admin;
    } in
    (m, insert id m rows)

-- The newest `max_listed` from the boundary on, oldest first.
unfoldable pub list_since : ℕ → Instant → Rows → List Message
list_since max_listed boundary rows = reverse (
    take max_listed
      (map message_of (sort_by newer (select (λ _ m. leb boundary m.created_at) rows))))

unfoldable pub get : ℕ → Rows → Option Message
get message_id rows = lookup message_id rows

unfoldable pub delete : ℕ → Rows → Rows
delete message_id rows = erase message_id rows

pub get-append :
    (id : ℕ) (author name body : String) (at : Instant) (admin : Bool) (rows : Rows)
    → let (m, t) = append id author name body at admin rows in get m.id t ≡ some m
unfolding append get
get-append id author name body at admin rows =
    ground (arith, lookup-insert id id (append id author name body at admin rows).0 rows)

pub append-fields :
    (id : ℕ) (author name body : String) (at : Instant) (admin : Bool) (rows : Rows)
    → let (m, t) = append id author name body at admin rows in
      (m.author_username ≡ author)
      × (m.body ≡ body)
      × (m.created_at ≡ at)
      × (m.author_admin ≡ admin)
unfolding append
append-fields id author name body at admin rows = (refl, refl, refl, refl)

pub get-delete :
    (id j : ℕ) (rows : Rows) → get j (delete id rows) ≡ (if id == j then none else get j rows)
unfolding get delete
get-delete id j rows = lookup-erase id j rows

-- PostgreSQL keeps what chat/ports.py asks of a store.
abbrev pub postgres : ℕ → ChatRepository Rows
postgres max_listed = record {
  append = append;
  list_since = list_since max_listed;
  get = get;
  delete = delete;
  IsValid = λ rows. Unit {0};
  append-IsValid = λ id author name body at admin s h. tt;
  delete-IsValid = λ id s h. tt;
  get-append = λ id author name body at admin s h. get-append id author name body at admin s;
  append-fields = append-fields;
  get-delete = λ id j s h. get-delete id j s;
}
