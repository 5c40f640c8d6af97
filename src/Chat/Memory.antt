-- ===== src/Chat/Memory.antt =====
-- chat/adapters/memory_repository.py: a bounded deque of messages with its own ids.
use tag2now_be.Prelude.{
  ℕ, ◌+◌, ◌<◌, ◌≡◌, refl, String, Bool, not, Option, none, some, List, [], ◌∷◌, ◌++◌, arith, ltb,
  leb, ◌==◌, if◌then◌else◌, length, All, All-mono, All-append, Bool-cases, lt→ltb, inl, inr,
}
use tag2now_be.Time.{Instant}
use tag2now_be.Chat.Domain.{Message}
use tag2now_be.Chat.Repository.{ChatRepository}

pub record MemoryChat : Type 0 where
  pub max_kept : ℕ
  pub messages : List Message
  pub next_id : ℕ

-- `deque.append` under `maxlen`: a full deque drops its oldest entry.
drop_oldest : List Message → List Message
drop_oldest [] = []
drop_oldest (m ∷ ms) = ms

abbrev push : ℕ → Message → List Message → List Message
push max_kept m ms = if ltb (length ms) max_kept then ms ++ m ∷ [] else drop_oldest (ms ++ m ∷ [])

unfoldable pub append :
    String → String → String → Instant → Bool → MemoryChat → Message × MemoryChat
unfolding drop_oldest
append author_username author_online_name body created_at author_admin s =
    let m : Message = record {
      id = s.next_id;
      author_username = author_username;
      author_online_name = author_online_name;
      body = body;
      created_at = created_at;
      author_admin = author_admin;
    } in
    (m, record s { next_id = s.next_id + 1; messages = push s.max_kept m s.messages })

filter_messages : (Message → Bool) → List Message → List Message
filter_messages p [] = []
filter_messages p (m ∷ ms) = let rest = filter_messages p ms in if p m then m ∷ rest else rest

unfoldable pub list_since : Instant → MemoryChat → List Message
unfolding filter_messages
list_since boundary s = filter_messages (λ m. leb boundary m.created_at) s.messages

find_message : ℕ → List Message → Option Message
find_message message_id [] = none
find_message message_id (m ∷ ms) = if m.id == message_id then some m else find_message message_id ms

unfoldable pub get : ℕ → MemoryChat → Option Message
unfolding find_message
get message_id s = find_message message_id s.messages

unfoldable pub delete : ℕ → MemoryChat → MemoryChat
unfolding filter_messages
delete message_id s = record s {
  messages = filter_messages (λ m. not (m.id == message_id)) s.messages;
}

-- The deque keeps at least one message and has no id that is still to be given out.
pub record IsValid (s : MemoryChat) : Type 0 where
  pub keeps : 0 < s.max_kept
  pub past_ids : All (λ m. m.id < s.next_id) s.messages

module _ (P : Message → Type 0) where
  All-filter : (p : Message → Bool) (ms : List Message) → All P ms → All P (filter_messages p ms)
  unfolding filter_messages
  All-filter p [] h = tt
  All-filter p (m ∷ ms) h = ground (arith, All-filter p ms h.1)

  All-drop : (ms : List Message) → All P ms → All P (drop_oldest ms)
  unfolding drop_oldest
  All-drop [] h = tt
  All-drop (m ∷ ms) h = h.1

  All-push :
      (max_kept : ℕ) (m : Message) (ms : List Message) → All P ms → P m → All P (push max_kept m ms)
  All-push max_kept m ms h pm = elim (Bool-cases (ltb (length ms) max_kept)) [
    | inl room ↦ rw room (All-append P ms (m ∷ []) h (pm, tt))
    | inr full ↦ rw full (All-drop (ms ++ m ∷ []) (All-append P ms (m ∷ []) h (pm, tt)))
  ]

find-append :
    (id : ℕ) (m : Message) (ms : List Message)
    → All (λ x. x.id < id) ms
    → m.id ≡ id
    → find_message id (ms ++ m ∷ []) ≡ some m
unfolding find_message
find-append id m [] h e = ground arith
find-append id m (x ∷ ms) h e = ground (arith, find-append id m ms h.1 e)

find-filter :
    (id j : ℕ) (ms : List Message)
    → find_message j (filter_messages (λ m. not (m.id == id)) ms)
      ≡ (if id == j then none else find_message j ms)
unfolding find_message filter_messages
find-filter id j [] = ground arith
find-filter id j (m ∷ ms) = ground (arith, find-filter id j ms)

find-push :
    (id max_kept : ℕ) (m : Message) (ms : List Message)
    → 0 < max_kept
    → All (λ x. x.id < id) ms
    → m.id ≡ id
    → find_message id (push max_kept m ms) ≡ some m
unfolding drop_oldest
find-push id max_kept m [] pos h e = rw (lt→ltb 0 max_kept pos) (find-append id m [] h e)
find-push id max_kept m (x ∷ ms) pos h e = elim (Bool-cases (ltb (length (x ∷ ms)) max_kept)) [
  | inl room ↦ rw room (find-append id m (x ∷ ms) h e)
  | inr full ↦ rw full (find-append id m ms h.1 e)
]

append-IsValid :
    (author name body : String) (at : Instant) (admin : Bool) (s : MemoryChat)
    → IsValid s
    → IsValid (append author name body at admin s).1
unfolding append
append-IsValid author name body at admin s v = record {
  keeps = v.keeps;
  past_ids =
      All-push (λ m. m.id < s.next_id + 1) s.max_kept (append author name body at admin s).0
        s.messages (All-mono s.messages (λ m h. omega arith) v.past_ids) (omega arith);
}

get-append :
    (author name body : String) (at : Instant) (admin : Bool) (s : MemoryChat)
    → IsValid s
    → let (m, t) = append author name body at admin s in get m.id t ≡ some m
unfolding append get
get-append author name body at admin s v =
    find-push s.next_id s.max_kept (append author name body at admin s).0 s.messages v.keeps
      v.past_ids refl

delete-IsValid : (id : ℕ) (s : MemoryChat) → IsValid s → IsValid (delete id s)
unfolding delete
delete-IsValid id s v = record {
  keeps = v.keeps;
  past_ids = All-filter (λ m. m.id < s.next_id) (λ m. not (m.id == id)) s.messages v.past_ids;
}

get-delete : (id j : ℕ) (s : MemoryChat) → get j (delete id s) ≡ (if id == j then none else get j s)
unfolding get delete
get-delete id j s = find-filter id j s.messages

-- The deque keeps what chat/ports.py asks of a store, as long as it may keep a message at all.
pub memory : ChatRepository MemoryChat
unfolding append
memory = record {
  append = λ id. append;
  list_since = list_since;
  get = get;
  delete = delete;
  IsValid = IsValid;
  append-IsValid = λ id. append-IsValid;
  delete-IsValid = delete-IsValid;
  get-append = λ id. get-append;
  append-fields = λ id author name body at admin s. (refl, refl, refl, refl);
  get-delete = λ id j s v. get-delete id j s;
}
