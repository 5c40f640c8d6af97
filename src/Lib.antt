-- ===== src/Lib.antt =====
-- The tag2now backend: a community service for players of one fighting game. The repository's code
-- stands under src/, one folder for each module (reservation, idempotency, chat, …), each with a
-- domain (rules without I/O), a service (use cases), ports (interfaces) and adapters (PostgreSQL,
-- remote servers, memory). Routers hand requests to the services with the signed-in user's name.
--
-- Which file models what:
--   Prelude     shared names; Tables is a table with a primary key, Lists the sort of `ORDER BY`,
--               Raise the exceptions of src/shared/exceptions.py and the transaction monad `Tx`
--   Time        instants in microseconds since 0001-01-01 UTC and Seoul's wall clock
--   Idempotency src/idempotency: Store models `claim`, `complete` and `run_once`, Once and Tests
--               hold the theorems and their instances
--   Reservation src/reservation: Domain is domain.py; Rows the tables of entities.py and the domain
--               objects; Statements, Repository and Comments are adapters/postgresql.py; Service is
--               service.py; Requests the field rules of models.py; the other files hold the theorems
--   Chat        src/chat: Bus is adapters/memory_bus.py, Streams what one reader of it sees; Domain
--               and Service are domain.py and service.py; Repository is the store's interface of
--               ports.py, Postgres and Memory the two adapters that fill it
--   Places      the runs of equal players and their places, as two boards make them
--   Event       src/event/domain.py: Domain has the baseline and the slots, Board `judge` and
--               `achievers`, Slots and Judging theorems
--   Matching    src/matching: Rooms has the rooms of models.py, Tracker is matchmaking_tracker.py,
--               Players and Phantoms its theorems; Connection is rpcn_lifecycle.py; Leaderboard and
--               Listing are the leaderboard and the room lists of service.py
--   Cache       src/shared/cache.py: Store is `DictCache`, Laws what a reader gets
--   Community   src/community: Rows is entities.py, Rules the rules and the nesting of service.py,
--               Repository is adapters/postgresql.py and Service is service.py; the other files
--               hold the theorems
--   History     src/history: Rows is entities.py and models.py, Repository the writes and the room
--               search of adapters/postgresql.py, Collector is collector.py
--   Records     src/records: Domain is domain.py with the data of models.py, Rows is entities.py,
--               Repository the writes of adapters/postgresql.py, Service the capture and the queue
--               of service.py, Listing the list of matches in all three; Queue has the consumer of
--               workers.py; the other files hold the theorems
--   Saves       src/saves: Domain is domain.py, Service the current-rank views of service.py
--   Popup       src/popup: Domain, Repository and Service are domain.py, adapters/postgresql.py and
--               service.py, the last over the cache of Cache/Store
--
-- How code becomes definitions. A method that reads and writes the database is a `Tx`: it takes the
-- tables to its result and the new tables, or raises. Every service method runs in one
-- `session.begin()`, which rolls back when an exception passes, so a method that raises has no new
-- tables. A SQL statement is the query or the update of tables that its text states. A key that the
-- database generates and a `server_default=now()` are arguments of the insert. The clock's reading
-- is an argument, once for each time that the code reads it. Errors are values with the class and
-- the message that the code raises. Functions have the names of the Python functions; `_join` is
-- `join_seat`, `ReservationStatus.OPEN` is `opened`.
--
-- Arguments that stand for other code: `seoul`, the fixed offset of the zone Asia/Seoul from UTC;
-- `strip`, Python's `str.strip`; `fingerprint`, the SHA-256 digest of a request's JSON; `to_json`,
-- pydantic's conversion of an answer to JSON. Answers of idempotent writes are JSON objects, never
-- null; `visit`, the order in which Python visits a set; `matches`, `fnmatch.fnmatch`; `to_text`
-- and `of_text`, `json.dumps` and `json.loads`; `casefold` and `text_lt`, Python's `str.casefold`
-- and the order of its texts; `digest`, the SHA-256 of an image; `path_of`, the text of an image's
-- address; `ilike`, PostgreSQL's search inside a name; `fault`, what the database raises
-- inside a savepoint or a transaction, and `outside`, what it raises beside the savepoint of an attempt.
--
-- Fuel. `drain` of Records/Queue and `pages_from` of Records/Pages run a loop that the source leaves
-- open: the first gets more fuel than the attempts that the queued events have left, the second more
-- than there are matches, and the theorems say that this is enough. Every other loop is a recursion
-- over a list.
--
-- How the parts meet. Reservation and Community run their creating writes under `run_once` of
-- Idempotency; Records finds the room of a match with `find_rank_room` of History, whose Collector
-- records the rooms that Matching lists; Popup keeps its list in the store of Cache; History counts
-- by a day that opens with the play day of Chat.
--
-- Not modelled: the HTTP routers and the wiring (app.py, container.py), the remote clients
-- (src/rpcn_client, src/admin), event/service.py and event/baseline.py, the Redis cache, the cached
-- methods of matching/service.py, community/service.py and records/service.py, the statistics of
-- history/adapters/postgresql.py and the tallies of records/adapters/postgresql.py (SQL aggregates),
-- the cached profile and the admin's edits of saves/service.py, and the modules auth and streaming.
-- Interleavings of transactions are not modelled: each is one step. The row locks of the adapters make
-- this so for the statements after a lock; `update_reservation` reads and checks before it takes the
-- lock, so what is stated of it is about requests that do not overlap.
pub mod Prelude
pub mod Time
pub mod Idempotency
pub mod Reservation
pub mod Chat
pub mod Event
pub mod Matching
pub mod Cache
pub mod Community
pub mod History
pub mod Records
pub mod Places
pub mod Saves
pub mod Popup
