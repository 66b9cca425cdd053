-- ===== src/Effect.antt =====
-- What the worker does to the world outside a function call, as data: a program is a tree of
-- operations, so the code is written once, and runs alone (Effect/World) or among others
-- (Protocol). One operation is one database statement with the commit that follows it, one call
-- of the Expo client, one call on a Pub/Sub message, or one increment of a counter.
pub mod World
pub mod Laws
pub mod Calm
pub mod Clock
pub mod Relates
pub mod Ledger
pub mod Operations
pub mod Yields
pub mod Outcomes
pub mod Settles
use inride_worker_manager.Prelude.{ℤ, ℕ, String, Bool, true, false, Option, List}
use inride_worker_manager.Domain.{Uuid}
use inride_worker_manager.Db.{Notification, User, DeviceToken}
use inride_worker_manager.Db.Directory.{DeviceQuery}

-- An exception: the classes that the code tells apart, each with its text.
pub data Exn : Type 0 where
  network : String → Exn
  not_registered : String → Exn
  other : String → Exn

-- `str(exc)`
abbrev pub message : Exn → String
message (network s) = s
message (not_registered s) = s
message (other s) = s

pub data Result {ℓ} (A : Type ℓ) : Type ℓ where
  ok : A → Result A
  raised : Exn → Result A

-- exponent_server_sdk.PushMessage, as far as the code fills it
pub record PushMessage : Type 0 where
  pub to : String
  pub title : String
  pub body : Option String
  pub payload : List (String × String)
  pub sound : String

-- exponent_server_sdk.PushClient: without a session of its own, or with one that has these headers
pub data Client : Type 0 where
  plain_client : Client
  session_client : List (String × String) → Client

pub data Op : Type 0 where
  claim_pending : Uuid → Op
  select_status : Uuid → Op
  select_notification : Uuid → Op
  claim_batch : ℕ → Op
  select_notifications : List Uuid → Op
  reclaim_rows : ℤ → Op
  select_user : Uuid → Op
  select_devices : DeviceQuery → Op
  insert_delivery : Uuid → Uuid → Op
  mark_delivery_sent : Uuid → Uuid → Op
  delete_sending : Uuid → Uuid → Op
  seal_sending : Uuid → Op
  select_sent : Uuid → Op
  update_status : Uuid → String → Option String → Op
  deactivate_devices : List Uuid → Op
  -- read `_client`, or store and return the client that the argument names
  ensure_client : Client → Op
  -- the client, the pair on whose behalf the message goes out, and the message
  publish : Client → Uuid → Uuid → PushMessage → Op
  extend_deadline : ℕ → ℕ → Op
  ack : ℕ → Op
  nack : ℕ → Op
  increment : String → ℕ → Op

abbrev pub Reply : Op → Type 0
Reply (claim_pending id) = Option Uuid
Reply (select_status id) = Option String
Reply (select_notification id) = Option Notification
Reply (claim_batch limit) = List Uuid
Reply (select_notifications ids) = List Notification
Reply (reclaim_rows seconds) = ℕ × ℕ
Reply (select_user id) = Option User
Reply (select_devices q) = List (DeviceToken × User)
Reply (insert_delivery ledger device) = Option Uuid
Reply (seal_sending ledger) = ℕ
Reply (select_sent ledger) = Bool
Reply (ensure_client new) = Client
Reply _ = Unit

-- A program returns or raises, or makes an operation and goes on with what came of it.
pub data Prog (A : Type 0) : Type 0 where
  done : Result A → Prog A
  call : (o : Op) → (Result (Reply o) → Prog A) → Prog A

abbrev pub pure : {A : Type 0} → A → Prog A
pure a = done (ok a)

abbrev pub raise : {A : Type 0} → Exn → Prog A
raise e = done (raised e)

abbrev pub perform : (o : Op) → Prog (Reply o)
perform o = call o done

infixl 5 ◌>>=◌ ◌>>◌
unfoldable pub ◌>>=◌ : {A B : Type 0} → Prog A → (A → Prog B) → Prog B
done (ok a) >>= f = f a
done (raised e) >>= f = done (raised e)
call o k >>= f = call o (λ r. k r >>= f)

abbrev pub ◌>>◌ : {B : Type 0} → Prog (Unit {0}) → Prog B → Prog B
m >> n = m >>= λ _. n

-- `try: m except Exception as exc: handler(exc)`
unfoldable pub catch : {A : Type 0} → Prog A → (Exn → Prog A) → Prog A
catch (done (ok a)) h = done (ok a)
catch (done (raised e)) h = h e
catch (call o k) h = call o (λ r. catch (k r) h)

-- `if test: m`
abbrev pub when : Bool → Prog (Unit {0}) → Prog (Unit {0})
when true m = m
when false m = pure tt
