-- ===== src/Pipeline/Runner/Sending.antt =====
-- One send to Expo: `ExpoSender.send` in app/pipeline/expo_sender.py, while the database does not
-- fail.
use inride_worker_manager.Pipeline.Runner.Refusals.{
  answer_text, any-later, deactivate_lem, error_lem, gone, gone_lem, is_refusal, refusals,
  refusals-next, refuses_token, told, told-next,
}
use inride_worker_manager.Core.{Config}
use inride_worker_manager.Effect.Calm.{Ends-if, Ends-weaken, Ends, Holds, calm_respond, exec_calm}
use inride_worker_manager.Prelude.{
  Bool, any, one_if, some, arith, refl, false, if◌then◌else◌, length, none, true, ◌+◌, ◌≡◌,
}
use inride_worker_manager.Effect.World.{
  effect, fails_after, fails_before, fine, unanswered, Answer, World, answered, later_answers,
  next_answer,
}
use inride_worker_manager.Domain.{DeliveryJob, DeliveryTarget, ledger_notification_id}
use inride_worker_manager.Pipeline.ExpoSender.{
  send, SendReply, message_for, on_send_error, push, push_with,
}
use inride_worker_manager.Effect.{
  message, Exn, network, not_registered, other, Client, PushMessage, catch, done, publish, pure,
  ◌>>=◌,
}

-- A send changes no table, and counts as a success exactly when Expo confirms a push.
pub record SendSpec (w : World) (reply : SendReply) (v : World) : Type 0 where
  pub db : v.db ≡ w.db
  pub pushes : length v.pushes ≡ length w.pushes + (if reply.success then 1 else 0)
  pub refused : gone reply + refusals v.expo ≡ refusals w.expo
  pub said : reply.deactivate ≡ true → told w.expo reply.error ≡ true
  pub later : (p : Answer → Bool) → any p v.expo ≡ true → any p w.expo ≡ true

module _ (cfg : Config) (job : DeliveryJob) where
  push_with-SendSpec :
      (target : DeliveryTarget) (client : Client) (w : World)
      → Ends (SendSpec w) (push_with client job target) w
  unfolding push_with push on_send_error ◌>>=◌ catch exec_calm calm_respond effect unanswered
  push_with-SendSpec target client w = record {
    at = go (next_answer w.expo) (refusals-next w.expo) (told-next w.expo);
  }
    where
      go_false :
          (e : Exn)
          → length w.pushes ≡ length w.pushes + (if (on_send_error e).success then 1 else 0)
      go_false (network x) = omega arith
      go_false (not_registered x) = omega arith
      go_false (other x) = omega arith

      m : PushMessage
      m = message_for job target

      said_by :
          (e : Exn)
          → (refuses_token e ≡ true → told w.expo (some (message e)) ≡ true)
          → (on_send_error e).deactivate ≡ true
          → told w.expo (on_send_error e).error ≡ true
      said_by e t h = rw (error_lem e) (t (deactivate_lem e h))

      go :
          (a : Answer)
          → refusals w.expo ≡ one_if (is_refusal a) + refusals (later_answers w.expo)
          → (is_refusal a ≡ true → told w.expo (some (answer_text a)) ≡ true)
          → Holds (SendSpec w) (
              let (r, v) =
                answered
                  (publish client (ledger_notification_id job) target.device_token_id m)
                  a
                  (record w { expo = later_answers w.expo }) in
              exec_calm
                (catch
                  (done r >>= λ u.
                    pure (record { success = true; error = none; deactivate = false }))
                  (λ e. pure (on_send_error e)))
                v)
      go fine n t = record {
        db = refl;
        pushes = omega arith;
        refused = omega (arith, n);
        said = λ h. cc h;
        later = λ p. any-later p w.expo;
      }
      go (fails_before e) n t = record {
        db = refl;
        pushes = go_false e;
        refused = omega (arith, n, gone_lem e);
        said = said_by e t;
        later = λ p. any-later p w.expo;
      }
      go (fails_after e) n t = record {
        db = refl;
        pushes = go_false e;
        refused = omega (arith, n, gone_lem e);
        said = said_by e t;
        later = λ p. any-later p w.expo;
      }

  pub send-SendSpec :
      (target : DeliveryTarget) (w : World) → Ends (SendSpec w) (send cfg job target) w
  unfolding send exec_calm calm_respond effect ◌>>=◌
  send-SendSpec target w =
      Ends-if cfg.sdk_available _ _ w
        (λ e. record {
          at =
              (Ends-weaken (SendSpec _) _ _ (push_with-SendSpec target _ _) (λ reply v s. record {
                db = s.db;
                pushes = s.pushes;
                refused = s.refused;
                said = s.said;
                later = s.later;
              })).at;
        })
        (λ e. record {
          at = record {
            db = refl;
            pushes = omega arith;
            refused = omega arith;
            said = λ h. cc h;
            later = λ p h. h;
          };
        })
