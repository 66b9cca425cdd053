-- ===== src/Effect/World.antt =====
-- The state of the world, and how it answers each operation. `answers` and `expo` are the
-- schedules of failures: an operation may fail before it has any effect, or its effect may take
-- place and the call raise all the same (a lost connection at the commit). With the schedule used
-- up, nothing fails.
use inride_worker_manager.Prelude.{
  Option, none, some, ℕ, ◌+◌, String, List, [], ◌∷◌, str_eq, if◌then◌else◌,
}
use inride_worker_manager.Domain.{Uuid}
use inride_worker_manager.Db.{Db}
use inride_worker_manager.Db.Notifications
use inride_worker_manager.Db.Deliveries
use inride_worker_manager.Db.Directory
use inride_worker_manager.Effect.{
  Exn, Result, ok, raised, Op, Reply, claim_pending, select_status, select_notification,
  claim_batch, select_notifications, reclaim_rows, select_user, select_devices, insert_delivery,
  mark_delivery_sent, delete_sending, seal_sending, select_sent, update_status, deactivate_devices,
  ensure_client, Client, publish, extend_deadline, ack, nack, increment, Prog, done, call,
}

pub data Answer : Type 0 where
  fine : Answer
  fails_before : Exn → Answer
  fails_after : Exn → Answer

-- What a Pub/Sub message has been told.
pub data Signal : Type 0 where
  acked : ℕ → Signal
  nacked : ℕ → Signal
  extended : ℕ → ℕ → Signal

pub record World : Type 0 where
  pub db : Db
  pub answers : List Answer
  -- the answers of Expo, to the pushes alone
  pub expo : List Answer
  -- the pushes that Expo has confirmed, newest first
  pub pushes : List (Uuid × Uuid)
  -- `ExpoSender._client`
  pub client : Option Client
  -- what the messages were told, newest first
  pub signals : List Signal
  -- `PushMetrics._local`
  pub counters : List (String × ℕ)

-- `self._local[key] += amount` on a defaultdict
unfoldable pub add_to : String → ℕ → List (String × ℕ) → List (String × ℕ)
add_to key n [] = (key, n) ∷ []
add_to key n ((k, m) ∷ rest) =
    if str_eq k key then (k, m + n) ∷ rest else (k, m) ∷ add_to key n rest

abbrev with_db : {A : Type 0} → World → A × Db → A × World
with_db w (a, db) = (a, record w { db = db })

abbrev or_client : Option Client → Client → Client
or_client none new = new
or_client (some c) new = c

-- The effect of an operation that does not fail.
unfoldable pub effect : (o : Op) → World → Reply o × World
effect (claim_pending id) w = with_db w (Notifications.claim_pending id w.db)
effect (select_status id) w = (Notifications.select_status id w.db, w)
effect (select_notification id) w = (Notifications.select_notification id w.db, w)
effect (claim_batch limit) w = with_db w (Notifications.claim_batch limit w.db)
effect (select_notifications ids) w = (Notifications.select_notifications ids w.db, w)
effect (reclaim_rows seconds) w = with_db w (Notifications.reclaim_rows seconds w.db)
effect (select_user id) w = (Directory.select_user id w.db, w)
effect (select_devices q) w = (Directory.select_devices q w.db, w)
effect (insert_delivery l d) w = with_db w (Deliveries.insert_delivery l d w.db)
effect (mark_delivery_sent l d) w = (tt, record w { db = Deliveries.mark_delivery_sent l d w.db })
effect (delete_sending l d) w = (tt, record w { db = Deliveries.delete_sending l d w.db })
effect (seal_sending l) w = with_db w (Deliveries.seal_sending l w.db)
effect (select_sent l) w = (Deliveries.select_sent l w.db, w)
effect (update_status id s e) w = (tt, record w { db = Notifications.update_status id s e w.db })
effect (deactivate_devices ids) w = (tt, record w { db = Directory.deactivate_devices ids w.db })
effect (ensure_client new) w = let c = or_client w.client new in (c, record w { client = some c })
effect (publish c l d m) w = (tt, record w { pushes = (l, d) ∷ w.pushes })
effect (extend_deadline m s) w = (tt, record w { signals = extended m s ∷ w.signals })
effect (ack m) w = (tt, record w { signals = acked m ∷ w.signals })
effect (nack m) w = (tt, record w { signals = nacked m ∷ w.signals })
effect (increment key n) w = (tt, record w { counters = add_to key n w.counters })

-- A push whose reply is lost is not confirmed, whether or not the device got it.
unfoldable pub unanswered : (o : Op) → World → World
unanswered (publish c l d m) w = w
unanswered o w = (effect o w).1

abbrev pub answered : (o : Op) → Answer → World → Result (Reply o) × World
answered o fine w = let (r, w') = effect o w in (ok r, w')
answered o (fails_before e) w = (raised e, w)
answered o (fails_after e) w = (raised e, unanswered o w)

abbrev pub next_answer : List Answer → Answer
next_answer [] = fine
next_answer (a ∷ as') = a

abbrev pub later_answers : List Answer → List Answer
later_answers [] = []
later_answers (a ∷ as') = as'

abbrev pub push_answered : (o : Op) → World → Result (Reply o) × World
push_answered o w = answered o (next_answer w.expo) (record w { expo = later_answers w.expo })

-- A counter is local and cannot fail: it takes no answer from a schedule.
unfoldable pub respond : (o : Op) → World → Result (Reply o) × World
respond (increment key n) w = answered (increment key n) fine w
respond (publish c l d m) w = push_answered (publish c l d m) w
respond o w = answered o (next_answer w.answers) (record w { answers = later_answers w.answers })

-- A program running alone.
unfoldable pub exec : {A : Type 0} → Prog A → World → Result A × World
exec (done r) w = (r, w)
exec (call o k) w = let (r, w') = respond o w in exec (k r) w'
