-- ===== src/Pipeline/Runner/Refusals.antt =====
-- Which answers of Expo refuse a device's token, as app/pipeline/expo_sender.py reads them.
use Prim.Native.String.{String}
use text.Mathlib.TextPositions.{eq_refl}
use inride_worker_manager.Prelude.{
  if◌then◌else◌, Bool, List, Option, [], any, arith, count, false, none, one_if, refl, some, str_eq,
  true, ℕ, ◌&&◌, ◌+◌, ◌||◌, ◌∷◌, ◌≡◌, ◌==◌,
}
use inride_worker_manager.Domain.{DeviceSendOutcome, Uuid}
use inride_worker_manager.Effect.{Exn, message, network, not_registered, other}
use inride_worker_manager.Effect.World.{
  Answer, fails_after, fails_before, fine, later_answers, next_answer,
}
use inride_worker_manager.Pipeline.ExpoSender.{SendReply, names_dead_token, on_send_error}
use inride_worker_manager.Text.{contains, lower}

-- The SDK's exception for a token that is not registered, or another one whose text says so.
abbrev pub refuses_token : Exn → Bool
refuses_token (network s) = false
refuses_token (not_registered s) = true
refuses_token (other s) =
    contains "devicenotregistered" (lower s)
    || contains "not a registered push notification recipient" (lower s)

abbrev pub is_refusal : Answer → Bool
is_refusal fine = false
is_refusal (fails_before e) = refuses_token e
is_refusal (fails_after e) = refuses_token e

abbrev pub answer_text : Answer → String
answer_text fine = ""
answer_text (fails_before e) = message e
answer_text (fails_after e) = message e

-- the answers that refuse a token
abbrev pub refusals : List Answer → ℕ
refusals answers = count is_refusal answers

abbrev pub refuses_with : String → Answer → Bool
refuses_with text a = is_refusal a && str_eq (answer_text a) text

-- one of the answers refuses a token, with this text
abbrev pub told : List Answer → Option String → Bool
told answers none = false
told answers (some text) = any (refuses_with text) answers

-- A failed send to this device, with the text of an answer that refuses a token.
abbrev pub blames : List Answer → Uuid → DeviceSendOutcome → Bool
blames answers id o =
    (o.device_token_id == id) && (str_eq o.result "failed" && told answers o.error)

pub refusals-next :
    (answers : List Answer)
    → refusals answers
      ≡ one_if (is_refusal (next_answer answers)) + refusals (later_answers answers)
unfolding count
refusals-next [] = refl
refusals-next (a ∷ answers) = ground arith

pub told-next :
    (answers : List Answer)
    → is_refusal (next_answer answers) ≡ true
    → told answers (some (answer_text (next_answer answers))) ≡ true
unfolding any
told-next [] h = cc h
told-next (a ∷ answers) h = rw (h, eq_refl (answer_text a)) refl

pub any-later :
    (p : Answer → Bool) (answers : List Answer)
    → any p (later_answers answers) ≡ true
    → any p answers ≡ true
unfolding any
any-later p [] h = h
any-later p (a ∷ answers) h = ground (arith, h)

-- how many devices a reply makes the runner deactivate
abbrev pub gone : SendReply → ℕ
gone reply = if reply.success then 0 else one_if reply.deactivate

pub gone_lem : (e : Exn) → gone (on_send_error e) ≡ one_if (refuses_token e)
unfolding on_send_error names_dead_token
gone_lem (network s) = refl
gone_lem (not_registered s) = refl
gone_lem (other s) = refl

pub deactivate_lem : (e : Exn) → (on_send_error e).deactivate ≡ true → refuses_token e ≡ true
unfolding on_send_error names_dead_token
deactivate_lem (network s) h = h
deactivate_lem (not_registered s) h = h
deactivate_lem (other s) h = h

pub error_lem : (e : Exn) → (on_send_error e).error ≡ some (message e)
unfolding on_send_error
error_lem (network s) = refl
error_lem (not_registered s) = refl
error_lem (other s) = refl

told-later :
    (before after : List Answer) (o : Option String)
    → ((p : Answer → Bool) → any p after ≡ true → any p before ≡ true)
    → told after o ≡ true
    → told before o ≡ true
told-later before after none l h = h
told-later before after (some text) l h = l (refuses_with text) h

pub blames-later :
    (before after : List Answer) (id : Uuid) (o : DeviceSendOutcome)
    → ((p : Answer → Bool) → any p after ≡ true → any p before ≡ true)
    → blames after id o ≡ true
    → blames before id o ≡ true
blames-later before after id o l h =
    ground (arith, h, told-later before after o.error l (ground (arith, h)))
