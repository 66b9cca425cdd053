-- ===== src/Ingress/StreamingPull.antt =====
-- app/ingress/pubsub_subscriber.py: `start` and `stop` of the streaming pull. The Google library
-- is the log of the calls on it, newest first, and what it answers to each is a parameter.
pub mod Balance
use Prim.Native.String.{◌++◌}
use inride_worker_manager.Prelude.{
  ℤ, [], String, Bool, true, false, not, ◌&&◌, List, ◌∷◌, str_eq, if◌then◌else◌,
}
use inride_worker_manager.Core.Settings.{Settings}
use inride_worker_manager.Effect.{Result, ok, raised}

pub data PullCall : Type 0 where
  -- `SubscriberClient()`
  opens_client : PullCall
  -- `subscribe(subscription_path, …, flow_control=FlowControl(max_messages=…))`
  subscribes : (subscription_path : String) → (max_messages : ℤ) → PullCall
  -- `future.cancel()`
  cancels : PullCall
  -- `subscriber.close()`
  closes_client : PullCall

-- whether `_subscriber` and `_future` hold an object, and the calls made
pub record StreamingPull : Type 0 where
  pub has_subscriber : Bool
  pub has_future : Bool
  pub calls : List PullCall

abbrev pub unsubscribed : StreamingPull
unsubscribed = record { has_subscriber = false; has_future = false; calls = [] }

-- `is_configured`
unfoldable pub is_configured : {F : Type 0} → Settings F → Bool
is_configured cfg =
    not (str_eq cfg.project_id "") && not (str_eq cfg.notification_pubsub_topic_name "")

abbrev pub subscription_path : {F : Type 0} → Settings F → String
subscription_path cfg =
    "projects/" ++ (cfg.project_id ++ ("/subscriptions/" ++ cfg.notification_pubsub_topic_name))

module _ (answers : PullCall → Result (Unit {0})) where
  abbrev pub on_library : PullCall → StreamingPull → Result (Unit {0}) × StreamingPull
  on_library c s = (answers c, record s { calls = c ∷ s.calls })

  abbrev pub stored_future : Result (Unit {0}) × StreamingPull → Result (Unit {0}) × StreamingPull
  stored_future (ok u, s) = (ok u, record s { has_future = true })
  stored_future (raised e, s) = (raised e, s)

  abbrev pub stored_subscriber :
      PullCall → Result (Unit {0}) × StreamingPull → Result (Unit {0}) × StreamingPull
  stored_subscriber pull (ok u, s) =
      stored_future (on_library pull (record s { has_subscriber = true }))
  stored_subscriber pull (raised e, s) = (raised e, s)

  -- `library_present`: the import of google.cloud.pubsub_v1 succeeded
  unfoldable pub start_pull :
      {F : Type 0}
      → (library_present : Bool) → Settings F
      → StreamingPull
      → Result (Unit {0}) × StreamingPull
  unfolding is_configured
  start_pull library_present cfg s =
      if not library_present
      then (ok tt, s)
      else if not (is_configured cfg)
      then (ok tt, s)
      else stored_subscriber (subscribes (subscription_path cfg) cfg.pubsub_max_messages)
          (on_library opens_client s)

  -- `close` under `except Exception: pass`, after which `_subscriber` is None
  abbrev pub close_subscriber : StreamingPull → StreamingPull
  close_subscriber s =
      if s.has_subscriber
      then record ((on_library closes_client s).1) { has_subscriber = false }
      else s

  abbrev pub after_cancel : Result (Unit {0}) × StreamingPull → Result (Unit {0}) × StreamingPull
  after_cancel (ok u, s) = (ok u, close_subscriber (record s { has_future = false }))
  after_cancel (raised e, s) = (raised e, s)

  unfoldable pub stop_pull : StreamingPull → Result (Unit {0}) × StreamingPull
  stop_pull s =
      if s.has_future then after_cancel (on_library cancels s) else (ok tt, close_subscriber s)
