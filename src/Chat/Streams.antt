-- ===== src/Chat/Streams.antt =====
-- What one stream of chat/adapters/memory_bus.py sees of the events that are published while it is
-- open: all of them in order, or, once it has fallen behind, the first of them and then the end.
use tag2now_be.Prelude.{
  ℕ, ◌≤◌, ◌<◌, ◌≡◌, ◌⊎◌, inl, inr, refl, ap, sym, ◌∙◌, Bool, true, false, List, [], ◌∷◌, ◌++◌,
  arith, length, length-append, Bool-cases,
}
use mathlib.Core.List.{append_assoc, append-nil}
use tag2now_be.Chat.Domain.{ChatEvent}
use tag2now_be.Chat.Bus.{
  Item, event, closed, Subscription, is_full, deliver, receive, Received, waiting, got, ended,
}

-- What happens to one stream: a publication, or its reader takes the next item.
pub data StreamStep : Type 0 where
  published : ChatEvent → StreamStep
  read : StreamStep

abbrev events_of : List Item → List ChatEvent
events_of [] = []
events_of (event e ∷ items) = e ∷ events_of items
events_of (closed ∷ items) = events_of items

abbrev received_event : Received → List ChatEvent
received_event (got e) = e ∷ []
received_event waiting = []
received_event ended = []

-- A stream with what its reader has got and what has been published since it opened.
pub record Watched : Type 0 where
  pub stream : Subscription
  pub seen : List ChatEvent
  pub sent : List ChatEvent

pub step : StreamStep → Watched → Watched
step (published e) w = record w { stream = deliver e w.stream; sent = w.sent ++ e ∷ [] }
step read w =
    let (r, s) = receive w.stream in record w { stream = s; seen = w.seen ++ received_event r }

pub watch : List StreamStep → Watched → Watched
watch [] w = w
watch (x ∷ xs) w = watch xs (step x w)

-- The items are events only, none of them `_CLOSED`.
abbrev IsOpen : List Item → Type 0
IsOpen [] = Unit
IsOpen (event e ∷ items) = IsOpen items
IsOpen (closed ∷ items) = ⊥

-- A subscribed stream holds events only, and these and the seen ones are all that was sent. A
-- dropped one has seen a first part of what was sent, and no event is left in its queue.
abbrev pub IsFaithful : Watched → Type 0
IsFaithful w =
    ((w.stream.subscribed ≡ true)
      × IsOpen w.stream.queue
      × (w.sent ≡ w.seen ++ events_of w.stream.queue))
    ⊎ ((w.stream.subscribed ≡ false)
        × (events_of w.stream.queue ≡ [])
        × ((missed : List ChatEvent) × (w.sent ≡ w.seen ++ missed)))

events_of-append :
    (items : List Item) (e : ChatEvent)
    → events_of (items ++ event e ∷ []) ≡ events_of items ++ e ∷ []
events_of-append [] e = refl
events_of-append (event x ∷ items) e = ap (λ (l : List ChatEvent). x ∷ l) (events_of-append items e)
events_of-append (closed ∷ items) e = events_of-append items e

IsOpen-append : (items : List Item) (e : ChatEvent) → IsOpen items → IsOpen (items ++ event e ∷ [])
IsOpen-append [] e h = tt
IsOpen-append (event x ∷ items) e h = IsOpen-append items e h
IsOpen-append (closed ∷ items) e h = h

deliver_full :
    (e : ChatEvent) (s : Subscription)
    → s.subscribed ≡ true
    → is_full s ≡ true
    → deliver e s ≡ record s { queue = closed ∷ []; subscribed = false }
unfolding deliver
deliver_full e s on full = ground arith

deliver_room :
    (e : ChatEvent) (s : Subscription)
    → s.subscribed ≡ true
    → is_full s ≡ false
    → deliver e s ≡ record s { queue = s.queue ++ event e ∷ [] }
unfolding deliver
deliver_room e s on room = ground arith

deliver_gone : (e : ChatEvent) (s : Subscription) → s.subscribed ≡ false → deliver e s ≡ s
unfolding deliver
deliver_gone e s off = ground arith

publish-IsFaithful :
    (e : ChatEvent) (w : Watched) → IsFaithful w → IsFaithful (step (published e) w)
unfolding step
publish-IsFaithful e w (inl (on, opened, all)) = elim (Bool-cases (is_full w.stream)) [
  | inl full ↦ rw (deliver_full e w.stream on full) (
      inr (
        refl,
        refl,
        (
          events_of w.stream.queue ++ e ∷ [],
          rw all (append_assoc w.seen (events_of w.stream.queue) (e ∷ [])),
        ),
      ))
  | inr room ↦ rw (deliver_room e w.stream on room) (
      inl (
        on,
        IsOpen-append w.stream.queue e opened,
        rw (all, events_of-append w.stream.queue e)
            (append_assoc w.seen (events_of w.stream.queue) (e ∷ [])),
      ))
]
publish-IsFaithful e w (inr (off, none_left, (missed, split))) =
    rw (deliver_gone e w.stream off)
      (inr (off, none_left, (missed ++ e ∷ [], rw split (append_assoc w.seen missed (e ∷ [])))))

read_items-IsFaithful :
    (items : List Item) (size : ℕ) (on : Bool) (seen sent : List ChatEvent)
    → let w : Watched = record {
      stream = record { size = size; queue = items; subscribed = on };
      seen = seen;
      sent = sent;
    } in
      IsFaithful w → IsFaithful (step read w)
unfolding step receive
read_items-IsFaithful [] size on seen sent (inl (e, opened, all)) =
    inl (e, opened, all ∙ ap (λ (l : List ChatEvent). l ++ []) (sym (append-nil seen)))
read_items-IsFaithful [] size on seen sent (inr (e, none_left, (missed, split))) = inr (
  e,
  none_left,
  (missed, split ∙ ap (λ (l : List ChatEvent). l ++ missed) (sym (append-nil seen))),
)
read_items-IsFaithful (event x ∷ items) size on seen sent (inl (e, opened, all)) =
    inl (e, opened, all ∙ sym (append_assoc seen (x ∷ []) (events_of items)))
read_items-IsFaithful (event x ∷ items) size on seen sent (inr (e, none_left, rest)) = absurd (cc)
read_items-IsFaithful (closed ∷ items) size on seen sent (inl (e, opened, all)) = absurd opened
read_items-IsFaithful (closed ∷ items) size on seen sent (inr (e, none_left, (missed, split))) =
    inr (
      e,
      none_left,
      (missed, split ∙ ap (λ (l : List ChatEvent). l ++ missed) (sym (append-nil seen))),
    )

step-IsFaithful : (x : StreamStep) (w : Watched) → IsFaithful w → IsFaithful (step x w)
step-IsFaithful (published e) w h = publish-IsFaithful e w h
step-IsFaithful read w h =
    read_items-IsFaithful w.stream.queue w.stream.size w.stream.subscribed w.seen w.sent h

-- In any order of publications and reads, a faithful stream stays faithful.
pub watch-IsFaithful : (xs : List StreamStep) (w : Watched) → IsFaithful w → IsFaithful (watch xs w)
unfolding watch
watch-IsFaithful [] w h = h
watch-IsFaithful (x ∷ xs) w h = watch-IsFaithful xs (step x w) (step-IsFaithful x w h)

-- A stream as `subscribe` opens it.
abbrev pub fresh : ℕ → Watched
fresh size = record {
  stream = record { size = size; queue = []; subscribed = true };
  seen = [];
  sent = [];
}

-- However publications and reads alternate on a stream since it opened: while the bus holds it, what
-- it has read and what is queued are together exactly what was published, in order; once it is
-- dropped, what it has read is a first part of that, and no event is left to read.
pub watch-fresh : (size : ℕ) (xs : List StreamStep) → IsFaithful (watch xs (fresh size))
watch-fresh size xs = watch-IsFaithful xs (fresh size) (inl (refl, tt, refl))

-- The queue never holds more than its size.
deliver-length :
    (e : ChatEvent) (s : Subscription)
    → 0 < s.size
    → length s.queue ≤ s.size
    → (length (deliver e s).queue ≤ s.size) × ((deliver e s).size ≡ s.size)
unfolding deliver
deliver-length e s pos h = ground (arith, length-append s.queue (event e ∷ []))

receive-length : (s : Subscription) → length (receive s).1.queue ≤ length s.queue
unfolding receive
receive-length s = ground arith

watch-bounded :
    (size : ℕ) (xs : List StreamStep) (w : Watched)
    → 0 < size
    → w.stream.size ≡ size
    → length w.stream.queue ≤ size
    → length (watch xs w).stream.queue ≤ size
unfolding watch step receive
watch-bounded size [] w pos same h = h
watch-bounded size (published e ∷ xs) w pos same h =
    let d = deliver-length e w.stream (omega arith) (omega arith) in
    watch-bounded size xs (step (published e) w) pos (omega arith) (omega arith)
watch-bounded size (read ∷ xs) w pos same h =
    watch-bounded size xs (step read w) pos same (ground (arith, receive-length w.stream))

-- A queue of a positive size never holds more than that many items, however slow its reader is.
pub watch_bound :
    (size : ℕ) (xs : List StreamStep)
    → 0 < size
    → length (watch xs (fresh size)).stream.queue ≤ size
watch_bound size xs pos = watch-bounded size xs (fresh size) pos refl (omega arith)
