-- ===== src/Chat/Tests.antt =====
-- Runs of the chat code at concrete inputs, and its theorems there.
use tag2now_be.Prelude.{
  ℕ, ◌+◌, ◌*◌, ◌≡◌, refl, false, List, [], ◌∷◌, arith, ok, err, insert, map_values,
}
use tag2now_be.Prelude.Dict
use tag2now_be.Time.{Instant, hour, day}
use tag2now_be.Chat.Domain.{Message, posted, deleted}
use tag2now_be.Chat.Bus
use tag2now_be.Chat.Bus.{event, Subscription}
use tag2now_be.Chat.Streams.{StreamStep, published, read, watch, fresh, IsFaithful, watch-fresh}
use tag2now_be.Chat.Postgres
use tag2now_be.Chat.Postgres.{Rows, postgres}
use tag2now_be.Chat.Service.{
  ChatState, too_fast, post_message, post_message-flooding, delete_message, delete_message-deleted,
  without_message, ensure_not_flooding,
}

abbrev seoul : ℕ
seoul = 9 * hour

abbrev now : Instant
now = 800_000 * day + 5 * hour

abbrev hello : Message
hello = record {
  id = 3;
  author_username = "ann";
  author_online_name = "Ann";
  body = "hello";
  created_at = now;
  author_admin = false;
}

-- Two events fill a queue of size 2; the third drops the stream, which has read one of them.
abbrev busy : List StreamStep
busy =
    published (posted hello)
    ∷ read
    ∷ published (deleted 1)
    ∷ published (deleted 2)
    ∷ published (deleted 3)
    ∷ []

watch-fresh_example : IsFaithful (watch busy (fresh 2))
watch-fresh_example = watch-fresh 2 busy

abbrev quiet : ChatState Rows
quiet = record { store = []; bus = []; last_post = [] }

abbrev lively : ChatState Rows
lively = record { store = (3, hello) ∷ []; bus = []; last_post = ("ann", now) ∷ [] }

post-hello : post_message (postgres 500) 3 "ann" "Ann" "hello" false now quiet ≡ ok (hello, lively)
unfolding post_message ensure_not_flooding map_values Postgres.append insert Dict.lookup Dict.insert
    Bus.publish
post-hello = refl

post_message-flooding_example :
    post_message (postgres 500) 4 "ann" "Ann" "again" false (now + 1) lively ≡ err too_fast
post_message-flooding_example =
    post_message-flooding (postgres 500) 3 "ann" "Ann" "hello" false now quiet lively hello
      post-hello 4 "Ann" "again" false (now + 1) (omega arith)

delete-hello :
    delete_message (postgres 500) 3 "ann" false lively
    ≡ ok (tt, without_message (postgres 500) 3 "ann" false lively)
unfolding Postgres.get
delete-hello =
    delete_message-deleted (postgres 500) 3 "ann" false lively hello
      (record { found = refl; allowed = refl })
