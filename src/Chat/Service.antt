-- ===== src/Chat/Service.antt =====
-- chat/service.py: posting, deleting, and what a new stream opens with, over any store that keeps
-- the promises of chat/ports.py.
use tag2now_be.Prelude.{
  ℕ, ◌*◌, ◌+◌, ◌==◌, if◌then◌else◌, ◌<◌, ◌≡◌, ◌↔◌, refl, String, Bool, true, false, not, ◌&&◌, ◌||◌,
  Option, none, some, List, arith, ltb, str_eq, eq_iff, Error, Result, ok, err, not_found,
  forbidden, rate_limited, raise_if, Tx, pure, gets, modify, lift, or_raise, ◌>>=◌, ◌>>◌,
  Option-cases, inl, inr,
}
use tag2now_be.Prelude.Dict
use tag2now_be.Prelude.Dict.{Dict}
use tag2now_be.Time.{Instant, second}
use tag2now_be.Chat.Domain.{Message, ChatEvent, posted, deleted, history_start}
use tag2now_be.Chat.Bus
use tag2now_be.Chat.Bus.{Bus}
use tag2now_be.Chat.Repository.{ChatRepository}

abbrev pub min_post_interval : ℕ
min_post_interval = 1 * second

abbrev pub too_fast : Error
too_fast = rate_limited "메시지를 너무 빨리 보내고 있습니다. 잠시 후 다시 보내 주세요."

abbrev pub message_missing : Error
message_missing = not_found "메시지를 찾을 수 없습니다."

abbrev pub not_yours : Error
not_yours = forbidden "본인 메시지만 삭제할 수 있습니다."

-- `last_post is not None and now - last_post < MIN_POST_INTERVAL`.
abbrev is_flooding : Option Instant → Instant → Bool
is_flooding none now = false
is_flooding (some last_post) now = ltb now (last_post + min_post_interval)

unfoldable pub ensure_not_flooding : Option Instant → Instant → Result (Unit {0})
ensure_not_flooding last_post now = raise_if (is_flooding last_post now) too_fast

-- The store, the bus and `_last_post`.
pub record ChatState (S : Type 0) : Type 0 where
  pub store : S
  pub bus : Bus
  pub last_post : Dict Instant

module _ {S : Type 0} (repo : ChatRepository S) where
  unfoldable pub recent_messages : ℕ → Instant → ChatState S → List Message
  recent_messages seoul now s = repo.list_since (history_start seoul now) s.store

  abbrev append : ℕ → String → String → String → Instant → Bool → Tx (ChatState S) Message
  append id subject display_name body now admin s =
      let (m, store) = repo.append id subject display_name body now admin s.store in
      ok (m, record s { store = store })

  abbrev publish : ChatEvent → Tx (ChatState S) (Unit {0})
  publish event = modify (λ s. record s { bus = Bus.publish event s.bus })

  unfoldable pub post_message :
      ℕ → String → String → String → Bool → Instant → Tx (ChatState S) Message
  unfolding ensure_not_flooding
  post_message id subject display_name body admin now = do
    last ← gets (λ s. Dict.lookup subject s.last_post)
    lift (ensure_not_flooding last now)
    message ← append id subject display_name body now admin
    modify (λ s. record s { last_post = Dict.insert subject now s.last_post })
    publish (posted message)
    pure message

  unfoldable pub delete_message : ℕ → String → Bool → Tx (ChatState S) (Unit {0})
  delete_message message_id subject admin = do
    found ← gets (λ s. repo.get message_id s.store)
    message ← or_raise found message_missing
    lift (raise_if (not (str_eq message.author_username subject) && not admin) not_yours)
    modify (λ s. record s { store = repo.delete message_id s.store })
    publish (deleted message_id)

  module _ (id : ℕ) (subject name body : String) (admin : Bool) (now : Instant) (s s' : ChatState S)
      (m : Message) (sent : post_message id subject name body admin now s ≡ ok (m, s')) where
    -- A message that was accepted is stored, under the signed-in author and at the clock's time, and
    -- is published to the streams.
    pub post_message-stored :
        repo.IsValid s.store
        → (repo.get m.id s'.store ≡ some m)
          × (m.author_username ≡ subject)
          × (m.created_at ≡ now)
          × (s'.bus ≡ Bus.publish (posted m) s.bus)
    unfolding post_message
    post_message-stored valid = grind (
      arith,
      repo.get-append id subject name body now admin s.store valid,
      repo.append-fields id subject name body now admin s.store,
    )

    -- Only the author's last post moves, to the time of this message.
    pub post_message-last_post :
        (other : String)
        → Dict.lookup other s'.last_post
          ≡ (if str_eq subject other then some now else Dict.lookup other s.last_post)
    unfolding post_message
    post_message-last_post other = ground (arith, Dict.lookup-insert subject other now s.last_post)

    -- Within a second of an accepted message its author is refused, whatever the next one is.
    pub post_message-flooding :
        (next : ℕ) (name' body' : String) (admin' : Bool) (later : Instant)
        → later < now + min_post_interval
        → post_message next subject name' body' admin' later s' ≡ err too_fast
    unfolding post_message
    post_message-flooding next name' body' admin' later soon =
        let last : Dict.lookup subject s'.last_post ≡ some now =
          ground (arith, post_message-last_post subject, eq_iff subject subject) in
        ground arith

  pub record IsDeletable (message_id : ℕ) (subject : String) (admin : Bool) (s : ChatState S)
      (message : Message) : Type 0 where
    pub found : repo.get message_id s.store ≡ some message
    pub allowed : str_eq message.author_username subject || admin ≡ true

  module _ (message_id : ℕ) (subject : String) (admin : Bool) (s : ChatState S) where
    abbrev pub without_message : ChatState S
    without_message = record s {
      store = repo.delete message_id s.store;
      bus = Bus.publish (deleted message_id) s.bus;
    }

    pub delete_message-deleted :
        (message : Message)
        → IsDeletable message_id subject admin s message
        → delete_message message_id subject admin s ≡ ok (tt, without_message)
    unfolding delete_message
    delete_message-deleted message d = ground arith

    pub delete_message-inv :
        (out : Unit {0}) (s' : ChatState S)
        → delete_message message_id subject admin s ≡ ok (out, s')
        → (message : Message) × IsDeletable message_id subject admin s message
          × (s' ≡ without_message)
    unfolding delete_message
    delete_message-inv out s' e = elim (Option-cases (repo.get message_id s.store)) [
      | inl missing ↦ absurd (ground arith)
      | inr (message, found) ↦
          (message, record { found = found; allowed = ground arith }, ground arith)
    ]

    -- A deletion succeeds exactly for a stored message whose author asks, or an admin.
    pub delete_message_iff :
        ((out : Unit {0}) × (s' : ChatState S) × (delete_message message_id subject admin s
            ≡ ok (out, s')))
        ↔ ((message : Message) × IsDeletable message_id subject admin s message)
    delete_message_iff = (
      λ (out, s', e). let (message, d, _) = delete_message-inv out s' e in (message, d),
      λ (message, d). (_, _, delete_message-deleted message d),
    )

    -- After a deletion in a valid store the message is gone, every other one is as before, and the
    -- streams are told.
    pub delete_message-gone :
        (out : Unit {0}) (s' : ChatState S) (j : ℕ)
        → repo.IsValid s.store
        → delete_message message_id subject admin s ≡ ok (out, s')
        → (repo.get j s'.store ≡ (if message_id == j then none else repo.get j s.store))
          × (s'.bus ≡ Bus.publish (deleted message_id) s.bus)
    delete_message-gone out s' j valid e =
        let (message, d, written) = delete_message-inv out s' e in
        rw written (repo.get-delete message_id j s.store valid, refl)
