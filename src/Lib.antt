-- ===== src/Lib.antt =====
-- overwatch-harness: a daemon that takes messages of operators from Telegram, keeps them in an
-- sqlite ledger, and answers each with a slash command or with a run of `claude -p`.
--
-- The parts and how they work together. An update of Telegram comes to `_on_message`
-- (src/harness/ingress/telegram.py), which turns chats away that are not on the allowlist, stores
-- the message and hands it to `_dispatch` (src/harness/__main__.py). That asks the router
-- (src/harness/router.py) for an intent and an engagement, and runs the slash command
-- (src/harness/slash.py) or, if the state machine (src/harness/selftest.py) allows it, the spawner
-- (src/harness/spawner.py). The reply goes out in chunks (src/harness/egress/telegram.py). All of
-- them write to the ledger (src/harness/db.py, with the schema of migrations/0001_init.sql).
--
-- The files, with the code they model:
--   Models         src/harness/models.py: a record for each dataclass, a data type for each CHECK
--   Ledger         src/harness/db.py: Db is the tables, and Operators, Engagements, Sessions,
--                  Messages and Heartbeats have a function for each method of `Ledger`, of the same
--                  name but for `_get_`, which is `get_`
--   Ledger/Sound   well-formedness, with a file for each group of methods; Run has the methods that
--                  write as one type of steps. Shapes, History and Replay are about what a call
--                  leaves, what it keeps and what it does the second time. Active is about the
--                  active engagement
--   Router         src/harness/router.py: `parse_slash` and `decide`; Commands is about the one,
--                  Decisions about the other
--   Slash          src/harness/slash.py: the `cmd_` functions and `dispatch`
--   Spawner        src/harness/spawner.py: `spawn` and the properties of `StreamChunk`; Quota has
--                  the search of stderr, Values the JSON values
--   Machine        src/harness/selftest.py: `StateMachine`
--   Selftest       src/harness/selftest.py: `run_selftest`, and the transition that `_run` of
--                  src/harness/__main__.py makes of its result; Gate is about it
--   Egress         src/harness/egress/telegram.py; Chunks and Limit are about `chunk_text` and
--                  `send_reply`
--   Daemon         the state that the coroutines share. Dispatch is `build_dispatch` of
--                  src/harness/__main__.py, Ingress is `_on_message`. Keeps carries a relation that
--                  each primitive step keeps through a whole handler; Trail, Health and Gate use it;
--                  Settled is about the status that a message ends with; Closed goes from the
--                  allowlist's setting to the update; System has updates and heartbeats in any
--                  order; on it stand Delivery, about a message that comes, and comes again, Addressed, about
--                  whom the daemon writes to, Isolation, about whose rows an update changes, and
--                  Answered, about whether a message gets an answer
--   Ledger/Rows    the three `_..._from_row` of src/harness/db.py on rows of named columns, with the
--                  columns of migrations/0001_init.sql. The other files take a row for its record
--   Ledger/Named   the keys of the operators
--   Ledger/Intake, Ledger/Pending, Ledger/Heartbeats/Retained
--                  the set of messages seen that the table stands for, what is pending at a start, and
--                  the heartbeats that a prune keeps
--   Spawner/Slots  the semaphore and the in-flight count of `Spawner` over several calls; Child is the
--                  environment of the process and `_terminate`
--   Config         src/harness/config.py; Allowlist is about `allowed_chat_ids`
--   Secrets        src/harness/secrets.py; Ensures and Loads are about `load_secrets`
--   Boot           `_run` of src/harness/__main__.py with `start` and `stop` of
--                  src/harness/ingress/telegram.py, `Ledger.open` of src/harness/db.py and
--                  `start_healthz` of src/harness/http.py, as steps; Parts, Trace and Stopping
--                  are about their order, Beat is the heartbeat loop, Langfuse follows the keys
--                  to the claude process
--   Http           src/harness/http.py; Reports is about what /healthz tells
--   Plane          src/harness/audit/plane.py; Addresses is about the base URL
--   Migrations     `_discover_migrations` and `apply_migrations` of src/harness/db.py; Reruns is about
--                  what they apply
--   Prelude, Text, Exec   shared: lists, rows found by a key, text, and errors with state
--   Tests          a small daemon on which the theorems are applied
--
-- Conventions. Text is a list of Unicode code points. A method that can raise returns an error as a
-- value together with the state that it leaves; what raised goes up to the caller's handler, as in
-- Python. A table is a list of rows, newest first, with the last key given out; an INSERT or UPDATE
-- checks the foreign keys and the UNIQUE constraint of the schema, and one that fails changes
-- nothing. A time is a number of milliseconds, which is the precision of the stored text, and the
-- clock is a parameter that is read once at each statement. Rows of equal time, whose order sqlite
-- leaves open, are taken newest first, the pending messages in the order of arrival. Also parameters
-- are the bot, which takes or refuses each message, the claude process, with its lines as the JSON
-- decoder gives them, strftime, which characters are decimal digits and their values, Vault, the HTTP
-- requests to Plane, the `*.sql` files and sqlite as the migrations use it, and for each call of the
-- boot and the shutdown whether it goes through. Updates are handled one after the other; the
-- heartbeat loop, which runs beside them, writes its own table only, so that a round of it is one
-- turn between two updates. A semaphore's `acquire` and
-- `release` are those of asyncio; an event is the run of a coroutine between two awaits.
--
-- Fuel. The loop of `chunk_text` has one round for each character of the text and one for the end,
-- which is enough because a round takes off at least one character. Decimal text of n is written
-- with n + 1 rounds. All else is structural recursion.
--
-- Not modelled: logging, the registration of signal handlers and the exit codes that `main` makes
-- of an interruption, the reading of the environment and the env file, which is pydantic's, the
-- connection to sqlite and its faults but for the steps that open and close it, and the servers
-- and clients of aiohttp, httpx, hvac and python-telegram-bot. The comments that the dispatch
-- hands to Plane are recorded, and not sent through Plane's model. Several claude processes at
-- once are modelled in their slots only.
pub mod Prelude
pub mod Text
pub mod Machine
pub mod Exec
pub mod Models
pub mod Ledger
pub mod Router
pub mod Egress
pub mod Config
pub mod Slash
pub mod Spawner
pub mod Selftest
pub mod Secrets
pub mod Boot
pub mod Http
pub mod Plane
pub mod Migrations
pub mod Daemon
pub mod Tests
