-- ===== src/Lib.antt =====
-- Task Buddy backend: a verification library for the core of the program.
--
-- The program is a FastAPI service for tasks with an offline-first client and a game layer. Eight of
-- its parts are modelled, each in a module of its own.
--
-- Focus: app/game/session_engine.py, the state machine of focus sessions. A session row and its phase
--   rows (app/models/game.py: FocusSession, FocusPhase) are the record Run; `evaluate`, `pause`,
--   `resume`, `advance`, `stop` and `done` take it and give the new rows and the steps that they
--   report. Focus.Evaluate, Focus.Controls and Focus.Finish hold them; Focus.Audit says what a session
--   and its steps must satisfy, Focus.History what sequences of calls do. `evaluate` loops until
--   nothing has elapsed: evaluate_loop has one round for each phase row and one more as fuel.
--   Focus.Start are the plan and the rows of `start_session` in app/game/session_service.py.
-- Idempotency: app/middleware/idempotency.py. Idempotency.Redis is the interface of the Redis client,
--   Idempotency.Http the requests and responses, Idempotency.Middleware the middleware itself.
--   `call_next` is a parameter that may change the whole world, the store included, which is how
--   requests that run at the same time are seen. A stream is answered with its iterator wrapped
--   (`streaming`), and `close` is the end of a reply.
-- Sync: app/sync/lww.py and app/api/routers/sync.py. Sync.Lww validates payloads, Sync.Merge applies
--   the changes one by one, Sync.Delta selects what the client must fetch, and Sync.Endpoint is the
--   handler with its 422, its 500 and the commit. Sync.Tables has the three tables, the statements and
--   what the foreign keys do. Whether the driver refuses a value of an UPDATE is the parameter
--   `refuses`.
-- Budget: app/knowledge/budget.py over app/models/budget.py, the daily token counters. A call is one
--   transaction, so a sequence of calls is an interleaving of requests.
-- Quiet: the quiet hours of app/game/notifications.py; a time is its minute of the day.
-- Tracking: the streaks of app/game/tracking.py over the rows of a window.
-- Dailies: app/game/daily_service.py. Dailies.Recurrence parses stored rules and lists the units that
--   they schedule, Dailies.Check marks one day. A date is its ordinal. The week loop has `end + 1`
--   rounds of fuel, and each round moves by seven days towards `end`. Dailies.Sweep is
--   app/game/daily_sweep.py: `_evaluate_unit` and `_evaluate_daily` on the rows of one daily and its
--   owner, with the other transactions as functions on these rows at the two points where the code
--   does not hold the profile lock. It calls the recurrence and the scoring engine.
-- Game: app/game/engine.py, the scoring engine over a profile (app/models/game.py: GameProfile).
--   Game.Number is the interface of Python's numbers and the calls that raise, Game.Rates the tunables
--   with `from_dict`, Game.Profile the level curve, the crits and the difficulties, Game.Award XP and
--   gold under the daily caps, Game.Damage the loss of HP and the death, Game.Payload the guards on
--   payloads, Game.Reward and Game.Event the handlers and `apply_event`. Game.Decimal are numbers to run
--   it on. Game.Character are the stat points and the class of app/game/character_service.py; its loop
--   has one round of fuel for each unspent point. The loop over level-ups has one round more than the XP as fuel, and each round pays one XP
--   or more.
--
-- Instants are whole microseconds; signed numbers are the type ℤ over the native numbers, JSON values
-- the type Json. Library code is a parameter: `fromisoformat`, the JWT, SHA-256, UUID and UTF-8
-- functions and Starlette's Response (the record Libraries), Redis, the database driver, Python's floating-point numbers (the record Numbers) and
-- the draws of its random numbers.
--
-- Not modelled: the services, routers, queries and schemas around the parts above, the calls of
-- language models, mail and storage, the migrations and the scripts. Of the modelled parts:
-- `serialize_row` of app/sync/lww.py, `recurrence_for_storage` and `_paid_totals` of
-- app/game/daily_service.py, the tick over all dailies, the notifications but for their quiet
-- hours, the rest of app/game/tracking.py, the gear lost on a death in app/game/daily_sweep.py, the
-- text of the engine's messages past the name of the field, the expiry of Redis keys, a DEL that
-- raises, the unique names of a user's projects, the gear of app/game/character_service.py, and of
-- app/game/session_service.py all but the plan and the rows of a new session.
pub mod Prelude
pub mod Json
pub mod Game
pub mod Focus
pub mod Sync
pub mod Budget
pub mod Dailies
pub mod Idempotency
pub mod Quiet
pub mod Tracking
