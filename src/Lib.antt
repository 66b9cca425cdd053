-- ===== src/Lib.antt =====
-- The notification worker: it takes the notifications that other services store in PostgreSQL and
-- pushes each to the mobile devices of its recipients through Expo. A notification reaches it as
-- a Pub/Sub message that names it, or by a poller that looks for pending rows and first recovers
-- those that a lost process left in status `processing`. Both hand it to one runner, which claims
-- the row, finds the recipients, claims each device in a ledger before it pushes to it, and
-- stores the status.
--
-- How the code is modelled. A program of the worker is a tree of operations (Effect): a database
-- statement with the commit that follows it, a call of the Expo client, a call on a Pub/Sub
-- message, or an increment of a counter. An exception is a result of an operation, `try` is
-- `catch`. The state (Effect/World) is the four tables, the client that is kept, the counters,
-- what Expo has confirmed and what the messages were told, with two schedules of failures: each
-- operation may fail before its effect, or take effect and fail all the same. A program runs
-- alone by `exec`; in Protocol, any number of threads run the same programs, one operation at a
-- time, in any order; a thread may stop at any point, and the tables that the worker does not own
-- may change at any time.
--
-- Around them stands the application (Application): it loads the settings from the environment
-- and the Secret Manager, opens the database, starts the poller's task and the streaming pull,
-- which share a semaphore, answers whether it is ready, and ends all of this. There the libraries
-- are parameters: what the database answers on a session, the Google library on a pull,
-- OpenTelemetry on a counter.
--
-- The files, and the code that each is about:
--   Prelude, Prelude/Tests, Prelude/Lists, Prelude/Counts, Prelude/Int: names, Boolean tests,
--     lists of rows, signed integers and lemmas
--   Text: the methods of `str` that the code calls, and `str` of a UUID; Text/Characters: texts
--     by a test of their characters; Text/Numerals and its RoundTrip: `str` and `int` of whole
--     numbers
--   Domain: app/domain/models.py, app/domain/handle_result.py, app/domain/policies.py
--   Application: app/main.py, the endpoints; Application/Probe: when `/ready` says so;
--     Application/Lifespan: `lifespan`, with Serving (what holds while it serves), Starting,
--     Release (what the end leaves) and Failing (what a start that raises has brought up)
--   Core: the fields of the configuration that the runner and the ingresses read; Core/Settings:
--     app/core/config.py, and its Reading; Core/Env: app/core/env.py, and its Reading and
--     Loading; Core/Secrets: app/core/secrets.py and app/services/gcp/secret_manager_client.py,
--     its Cache and Again: that the cache is invisible
--   Db: app/db/models.py; Db/Notifications, Db/Deliveries and Db/Directory: the statements that
--     app/pipeline and app/ingress/reclaim.py make on public.notifications, on
--     notification_push_deliveries, and on users and device_tokens; their Laws: what the
--     statements do; Db/Deliveries/Moves: what may happen to the ledger at all
--   Db/Session: app/db/session.py; Db/Postgres, Db/Postgres/Lifecycle: app/db/postgres.py
--   Effect: exceptions, operations and programs; Effect/World: the state; Effect/Laws: how runs
--     compose; Effect/Calm: runs in which the database does not fail; Effect/Clock: that they
--     leave the clock; Effect/Relates, Effect/Ledger: that every operation moves the ledger as it
--     may, whether it fails or not; Effect/Operations: programs by the operations that they may
--     make; Effect/Yields and Effect/Outcomes: runs under any failures; Effect/Settles and its
--     Runs: by the acks and nacks
--   Monitoring, Monitoring/Counting, Monitoring/Mirror and its Agreement:
--     app/monitoring/metrics.py
--   Pipeline/Claimer: app/pipeline/claimer.py (`claim_by_id`, `claim_pending_batch`); its Claims,
--     Ages, Keys, Sorted, Batches, Draining, Progress and Oldest: what a claim does; its
--     Undisturbed and Exclusive: that claims exclude each other
--   Pipeline/DeviceIdempotency: app/pipeline/device_idempotency.py
--   Pipeline/Finalizer: app/pipeline/finalizer.py
--   Pipeline/RecipientResolver: app/pipeline/recipient_resolver.py; its Reads, Targets and Order:
--     the resolver as a function of the tables, whom it targets, in which order
--   Pipeline/ExpoSender, Pipeline/Previews, Pipeline/Payloads: app/pipeline/expo_sender.py
--   Pipeline/Runner: app/pipeline/runner.py (`_execute_job` is `execute_job`); its Refusals,
--     Sending, Rounds, Loop, Final and Jobs: the answers of Expo, one send, one round, the loop
--     over the devices, its end, a whole job; its Deactivation; its Missing, Handling and
--     Redelivery: `handle_notification_id`
--   Pipeline/Operations: which operations app/pipeline makes
--   Ingress/Reclaim, Ingress/Recovery: app/ingress/reclaim.py
--   Ingress/PendingPoller, Ingress/Polling, Ingress/Progress, Ingress/Draining,
--     Ingress/Finishing: app/ingress/pending_poller.py (`_tick` and `_loop`); Ingress/PollerTask
--     and its Loops: `start` and `stop`
--   Ingress/Payload, with Digits, Pieces and RoundTrip (the text of a UUID),
--     Ingress/PubsubSubscriber: app/ingress/pubsub_subscriber.py (`_on_message` is `on_message`,
--     the coroutine in it is `handle`); Ingress/Settling, Ingress/Answers, Ingress/Handled with
--     its Concluding, and Ingress/Acks: its acks and nacks; Ingress/StreamingPull and its
--     Balance: `start` and `stop`
--   Ingress/Operations, Ingress/Statuses: which operations the entries make, and what they do to
--     a status
--   Ingress/Concurrency, its Turns and Endings: the semaphore of app/main.py with the coroutines
--     of app/ingress/pending_poller.py (`_run`) and app/ingress/pubsub_subscriber.py (`_handle`)
--   Protocol: the discipline that a thread keeps with the ledger, that every program of the
--     worker keeps it (Rules, Pieces, Programs, Entries), the threads together (System, Keys,
--     Invariant, Schedule), and what follows for the ledger (Safety, Ledger), for the statuses
--     (Course, Statuses), and for the poller after any history (Recovery)
--   Tests: a small database, the races and courses of two threads, and the theorems at these
--     inputs
--
-- Bounds. A UUID is the number of its bits and a time the number of its microseconds. The
-- poller's loop is given its number of rounds. The decimal digits of a number `n` are written
-- with fuel `n + 1`, and `n` has at most that many.
--
-- Not modelled: when the event loop gives its turns, the pauses of the poller, logging and
-- timing, since they neither change the tables nor make a call that the parts above depend on;
-- the lock of the counters, each of whose increments is one operation; FastAPI's routing. The
-- transaction of a session is one operation in the pipeline: `rollback` and `close` are seen in
-- Db/Session alone. `bytes.decode`, `json.loads` and `float` are parameters, and so are whether
-- SQLAlchemy accepts the URL of an engine, what OpenTelemetry does with a call, the Google client
-- of the secrets and the env files with their parser. Digits are ASCII, and lower case is that of
-- the letters A to Z.
pub mod Prelude
pub mod Text
pub mod Domain
pub mod Application
pub mod Core
pub mod Db
pub mod Effect
pub mod Monitoring
pub mod Pipeline
pub mod Ingress
pub mod Protocol
pub mod Tests
