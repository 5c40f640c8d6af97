-- ===== src/Chat/Repository.antt =====
-- chat/ports.py: what the service relies on of a store of messages. The id of a new message is the
-- argument `id` where a database generates it.
use tag2now_be.Prelude.{ℕ, ◌≡◌, String, Bool, Option, none, some, List, ◌==◌, if◌then◌else◌}
use tag2now_be.Time.{Instant}
use tag2now_be.Chat.Domain.{Message}

pub record ChatRepository (S : Type 0) : Type 1 where
  pub append : ℕ → String → String → String → Instant → Bool → S → Message × S
  pub list_since : Instant → S → List Message
  pub get : ℕ → S → Option Message
  pub delete : ℕ → S → S
  pub IsValid : S → Type 0
  pub append-IsValid :
      (id : ℕ) (author name body : String) (at : Instant) (admin : Bool) (s : S)
      → IsValid s
      → IsValid (append id author name body at admin s).1
  pub delete-IsValid : (id : ℕ) (s : S) → IsValid s → IsValid (delete id s)
  pub get-append :
      (id : ℕ) (author name body : String) (at : Instant) (admin : Bool) (s : S)
      → IsValid s
      → let (m, t) = append id author name body at admin s in get m.id t ≡ some m
  pub append-fields :
      (id : ℕ) (author name body : String) (at : Instant) (admin : Bool) (s : S)
      → let (m, t) = append id author name body at admin s in
        (m.author_username ≡ author)
        × (m.body ≡ body)
        × (m.created_at ≡ at)
        × (m.author_admin ≡ admin)
  pub get-delete :
      (id j : ℕ) (s : S) → IsValid s → get j (delete id s) ≡ (if id == j then none else get j s)
