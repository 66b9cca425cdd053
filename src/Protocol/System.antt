-- ===== src/Protocol/System.antt =====
-- Threads that share the world: the callbacks of the subscriber, the poller and its jobs, in one
-- process or in several. A step is one operation of one thread, the start of a program in a
-- thread (a thread that stops, by a crash too, starts `stopped`), or what others do to the
-- database: they add and change notifications, users and devices, time passes, and failures come;
-- only the worker writes the delivery ledger.
use inride_worker_manager.Core.{Config}
use inride_worker_manager.Ingress.PendingPoller.{poll, run_job}
use inride_worker_manager.Db.{Db}
use inride_worker_manager.Effect.World.{Answer, World, respond}
use inride_worker_manager.Domain.{DeliveryJob, DeliveryPolicy}
use inride_worker_manager.Protocol.{Phase, idle, next}
use inride_worker_manager.Effect.{Op, Prog, Reply, Result, call, pure}
use inride_worker_manager.Prelude.{Bool, List, [], if◌then◌else◌, ℕ, ◌==◌, ◌≡◌}
use inride_worker_manager.Ingress.PubsubSubscriber.{Codec, Message, on_message}

abbrev pub update {ℓ} : {A : Type ℓ} → (ℕ → A) → ℕ → A → ℕ → A
update f i a j = if i == j then a else f j

pub record System : Type 0 where
  pub world : World
  pub prog : ℕ → Prog (Unit {0})
  -- where each thread is in the discipline of Protocol; no code reads it
  pub phase : ℕ → Phase

pub data Entry : Type 0 where
  message_came : (started : Bool) → Message → Entry
  poller_ran : (rounds : ℕ) → Entry
  job_ran : DeliveryJob → Entry
  stopped : Entry

abbrev pub start : Config → DeliveryPolicy → Codec → Entry → Prog (Unit {0})
start cfg policy codec (message_came started m) = on_message cfg policy codec started m
start cfg policy codec (poller_ran rounds) = poll cfg policy rounds
start cfg policy codec (job_ran job) = run_job cfg policy job
start cfg policy codec stopped = pure tt

-- thread `i` makes the operation `o` and goes on with `k`
abbrev pub advance : System → ℕ → (o : Op) → (Result (Reply o) → Prog (Unit {0})) → System
advance s i o k =
    let (r, w) = respond o s.world in
    record {
      world = w;
      prog = update s.prog i (k r);
      phase = update s.phase i (next (s.phase i) o r);
    }

abbrev pub begin : System → ℕ → Prog (Unit {0}) → System
begin s i m = record s { prog = update s.prog i m; phase = update s.phase i idle }

abbrev pub interfere : System → Db → List Answer → List Answer → System
interfere s db answers expo = record s {
  world = record s.world { db = db; answers = answers; expo = expo };
}

pub data Step (cfg : Config) (policy : DeliveryPolicy) (codec : Codec)
    : System → System → Type 0 where
  act :
      (s : System) (i : ℕ) (o : Op) (k : Result (Reply o) → Prog (Unit {0}))
      → s.prog i ≡ call o k
      → Step cfg policy codec s (advance s i o k)
  begins :
      (s : System) (i : ℕ) (e : Entry)
      → Step cfg policy codec s (begin s i (start cfg policy codec e))
  others :
      (s : System) (db : Db) (answers expo : List Answer)
      → db.deliveries ≡ s.world.db.deliveries
      → Step cfg policy codec s (interfere s db answers expo)

abbrev pub initial : World → System
initial w = record { world = w; prog = λ i. pure tt; phase = λ i. idle }

-- The states that a worker can come to, from any database and with no push confirmed yet.
pub data Reach (cfg : Config) (policy : DeliveryPolicy) (codec : Codec) : System → Type 0 where
  fresh : (w : World) → w.pushes ≡ [] → Reach cfg policy codec (initial w)
  later :
      {s t : System}
      → Reach cfg policy codec s
      → Step cfg policy codec s t
      → Reach cfg policy codec t
