-- ===== src/Chat/Bus.antt =====
-- chat/adapters/memory_bus.py: one bounded queue for each open stream. The set of subscriptions is
-- the flag `subscribed` of each stream that was ever opened, under the stream's number.
use tag2now_be.Prelude.{
  ℕ, Bool, true, false, ◌&&◌, List, [], ◌∷◌, ◌++◌, Table, insert, map_values, length, ltb, leb,
  if◌then◌else◌,
}
use tag2now_be.Chat.Domain.{ChatEvent}

abbrev pub queue_size : ℕ
queue_size = 100

-- What a queue holds: an event, or `_CLOSED`.
pub data Item : Type 0 where
  event : ChatEvent → Item
  closed : Item

-- `asyncio.Queue(size)` and whether the bus still holds the subscription.
pub record Subscription : Type 0 where
  pub size : ℕ
  pub queue : List Item
  pub subscribed : Bool

-- `asyncio.Queue.full`: a queue of size 0 is never full.
abbrev pub is_full : Subscription → Bool
is_full s = ltb 0 s.size && leb s.size (length s.queue)

-- `offer`: whether the event was taken, and the queue after it.
unfoldable pub offer : ChatEvent → Subscription → Bool × Subscription
offer e s = if is_full s then (false, s) else (true, record s { queue = s.queue ++ event e ∷ [] })

unfoldable pub close : Subscription → Subscription
close s = record s { queue = closed ∷ [] }

-- One round of `publish`: a stream that does not take the event is dropped and closed.
abbrev kept_or_dropped : Bool × Subscription → Subscription
kept_or_dropped (true, s) = s
kept_or_dropped (false, s) = close (record s { subscribed = false })

unfoldable pub deliver : ChatEvent → Subscription → Subscription
unfolding offer close
deliver e s = if s.subscribed then kept_or_dropped (offer e s) else s

abbrev pub Bus : Type 0
Bus = Table Subscription

unfoldable pub publish : ChatEvent → Bus → Bus
publish e bus = map_values (λ _. deliver e) bus

unfoldable pub subscribe : ℕ → ℕ → Bus → Bus
subscribe size stream bus =
    insert stream (record { size = size; queue = []; subscribed = true }) bus

-- The `finally` of `subscribe`: the stream's request has ended.
unfoldable pub unsubscribe : Subscription → Subscription
unsubscribe s = record s { subscribed = false }

-- What one step of `__aiter__` finds: nothing yet, an event, or the end of the iteration.
pub data Received : Type 0 where
  waiting : Received
  got : ChatEvent → Received
  ended : Received

abbrev taken : List Item → Received × List Item
taken [] = (waiting, [])
taken (event e ∷ items) = (got e, items)
taken (closed ∷ items) = (ended, items)

unfoldable pub receive : Subscription → Received × Subscription
receive s = let (r, items) = taken s.queue in (r, record s { queue = items })
