-- ===== src/Lib.antt =====
-- A service that takes payments over HTTP, puts them to an external provider and tells the merchant
-- the outcome by a webhook. One row per payment and an outbox of events are in PostgreSQL; a relay
-- publishes the events over RabbitMQ to a worker, which processes payments and delivers webhooks; a
-- reconciliation asks the provider again about payments whose outcome is unknown.
--
-- Parts, by file, with the code they follow:
--   Prelude: shared names, tests, lists, `ORDER BY`, and the exceptions as one type of errors.
--   Breaker: `app/resilience/circuit_breaker.py`. `before_call` is `_before_call`, `after_call` the
--     except clauses of `call`; Breaker/Step has the calls of one breaker in any interleaving.
--   Schemas: `app/schemas`. An amount is a number of cents; a validator returns a Result.
--   Models: `app/models`, the tables as lists of rows, with ids and times as numbers.
--     Models/Schema is what the classes declare, for the catalogue of PostgreSQL.
--   Repositories: `app/repositories`. Payments and Outbox are the queries and Session is a
--     transaction: its last step is `commit`, which keeps all that was changed or nothing.
--   Clients: `app/clients`. Clients/Provider/Loop is the retry loop of `process_payment`, with what it
--     does as a list of actions; Clients/Webhook is one delivery.
--   Services: `app/services`. Create is `payment.py`, `idempotency.py` and `payment_query.py`, Relay is
--     `outbox_relay.py` and Reconciliation is `payment_reconciliation.py`.
--   Api: `app/api` and the HTTP process. Payments and Health are the endpoints with their status codes,
--     Middleware is `app/core/middleware.py`, and Application is `app/main.py` and the router.
--   Worker: `app/worker` and `app/integrations/rabbitmq`. Payment, Webhook, Dispatcher and Consumer
--     are the classes of the files with these words in their names, Publisher the queues and routing.
--   MockProvider: `mock-provider/app`. Locks is `_idempotency_locks`, Payments is `process_payment`, cut at
--     its awaits, and the lookup, Webhooks what is captured; Step has its handlers in any interleaving.
--   Migrations: `alembic/versions`, on a catalogue of tables and indexes.
--   Startup: `app/core/config.py`, and `run_worker` of `app/worker/main.py` in Startup/Lifecycle.
--   Flow: the parts together. It states when a database is sound and relates all transactions above.
--     Flow/Agreement states what the service relies on in a provider, as a record of laws, which
--     Flow/WithMock fills with the mock provider; Flow/Honest puts the client in front of it.
--     Flow/Complete and Flow/Resolved are the runs in which nothing fails.
--     Flow/Outbox and Flow/Handled state what transactions add to the outbox and what an event that is
--     processed has brought about.
--   System: all processes with the broker between them. System/Broker is what they rely on of RabbitMQ, as
--     a record of laws; System/Step has, as steps in any order, the transactions, each publication, each
--     settlement of a message (`handle` of the consumer over the dispatcher) and what the broker does.
--   Tests: the theorems at concrete inputs, on one payment from its creation to its webhook.
--
-- How they interact. A handler that awaits something in the middle is given what happens meanwhile:
-- `others` on the database, `other_calls` on the breaker. Flow/Reach has the transactions of all
-- servers and workers as steps in any order, each with its clock readings, its fresh ids and whether
-- the server carries it out, so that any crash between two transactions is a sequence of steps. In
-- System a publication, the transaction that follows it and the settlement of a message are steps of
-- their own, so that other processes may come between them.
--
-- Bounds and fuel. The retry loop runs over the attempts that are configured, as the `for` of the code
-- does, with what follows its last turn as the last case; a list bounds every other loop. A polling
-- loop `run` is given the list of its turns: it is stopped after the last one. `journey`
-- takes a number of moves of an event between the queues, and its theorem asks for five: three
-- deliveries and the end of two waits. Numbers have no upper bound, as in Python, and times are whole ticks.
--
-- Not modelled: the set-up of structlog (`app/core/logging.py`), of the engine
-- (`app/core/database.py`) and of the broker's client, and `alembic/env.py`. Durations in the log
-- are left out. The libraries are parameters: `json.dumps` and SHA-256 (`Hashing`), `float` and
-- the date parser of the header (`Parsers`), the parser of URLs (`UrlParser`), httpx (the outcome
-- of each request), and the broker (what it confirms, and the laws of `BrokerContract`). Routing
-- of HTTP requests is FastAPI's: a request is given with its endpoint, and with its body read as JSON
-- or found to be unreadable. What PostgreSQL does is
-- written out: unique columns, `SKIP LOCKED` as a set of locked rows, and `now()` as a time of the
-- transaction. Between two awaits a handler of the mock provider runs alone, as on one event loop;
-- its `async with` awaits at most once, before the record is read. A commit either keeps its changes
-- and returns, or raises and drops them: that the server commits and its answer is lost is left out,
-- as is a read that fails, except the first reads of the event processors, `refresh` and the check
-- of readiness. The relay reads one clock for the marks of a batch.
-- `asyncio.sleep` raises ValueError on NaN, as Python documents it for the version of pyproject.toml.
pub mod Prelude
pub mod Breaker
pub mod Schemas
pub mod Models
pub mod Repositories
pub mod Clients
pub mod Services
pub mod Api
pub mod Worker
pub mod MockProvider
pub mod Migrations
pub mod Startup
pub mod Flow
pub mod System
pub mod Tests
