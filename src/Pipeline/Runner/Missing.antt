-- ===== src/Pipeline/Runner/Missing.antt =====
-- `handle_notification_id` in app/pipeline/runner.py on a status that is stored, by the status.
use inride_worker_manager.Prelude.{
  Bool, ap, str_eq, ◌||◌, Bool-cases, Option, String, arith, eq_iff, inl, inr, none, refl, some,
  true, false, ◌≡◌, ◌≢◌, ◌↔◌, ◌⊎◌,
}
use mathlib.Core.Option.{some-injective}
use inride_worker_manager.Core.{Config}
use inride_worker_manager.Domain.{
  DeliveryPolicy, ack_already_done, ack_in_flight, nack_retry, should_ack,
}
use inride_worker_manager.Pipeline.Runner.{on_miss}

-- the stored status is this one
abbrev pub is_status : Option String → String → Bool
is_status none s = false
is_status (some t) s = str_eq t s

is_status_iff : (o : Option String) (s : String) → (is_status o s ≡ true) ↔ (o ≡ some s)
is_status_iff none s = (λ h. cc h, λ h. cc h)
is_status_iff (some t) s =
    (λ h. ap some ((eq_iff t s).0 h), λ h. (eq_iff t s).1 (some-injective t s h))

-- the statuses that a message is acked for
abbrev pub is_settled : Option String → Bool
is_settled o = is_status o "sent" || is_status o "failed" || is_status o "processing"

module _ (cfg : Config) (policy : DeliveryPolicy) where
  pub on_miss-acks :
      (o : Option String) → should_ack (on_miss cfg policy o).disposition ≡ is_settled o
  unfolding on_miss
  on_miss-acks none = refl
  on_miss-acks (some t) = ground arith

  pub on_miss-delivery : (o : Option String) → (on_miss cfg policy o).delivery ≡ none
  unfolding on_miss
  on_miss-delivery none = refl
  on_miss-delivery (some t) = ground arith

  pub on_miss-finished :
      (o : Option String)
      → ((on_miss cfg policy o).disposition ≡ ack_already_done)
        ↔ ((o ≡ some "sent") ⊎ (o ≡ some "failed"))
  unfolding on_miss
  on_miss-finished none = (λ h. cc h, λ h. elim h [ inl e ↦ cc e | inr e ↦ cc e ])
  on_miss-finished (some t) = (
    λ h. elim (Bool-cases (str_eq t "sent")) [
      | inl e ↦ inl (ap some ((eq_iff t "sent").0 e))
      | inr e ↦ inr (ap some ((eq_iff t "failed").0 (ground (arith, h, e))))
    ],
    λ h. elim h [
      | inl e ↦ ap (λ o. (on_miss cfg policy o).disposition) e
      | inr e ↦ ap (λ o. (on_miss cfg policy o).disposition) e
    ],
  )

  pub on_miss-in_flight :
      (o : Option String)
      → ((on_miss cfg policy o).disposition ≡ ack_in_flight) ↔ (o ≡ some "processing")
  unfolding on_miss
  on_miss-in_flight none = (λ h. cc h, λ h. cc h)
  on_miss-in_flight (some t) = (
    λ h. ap some ((eq_iff t "processing").0 (ground (arith, h))),
    λ h. ap (λ o. (on_miss cfg policy o).disposition) h,
  )

  pub on_miss-unknown :
      (o : Option String)
      → ((on_miss cfg policy o).disposition ≡ nack_retry)
        ↔ ((o ≢ some "sent") × (o ≢ some "failed") × (o ≢ some "processing"))
  unfolding on_miss
  on_miss-unknown none = (λ h. (λ e. cc e, λ e. cc e, λ e. cc e), λ h. refl)
  on_miss-unknown (some t) = (
    λ h. (λ e. cc (rw e at h), λ e. cc (rw e at h), λ e. cc (rw e at h)),
    λ h. elim (Bool-cases (str_eq t "sent")) [
      | inl e ↦ absurd (h.0 (ap some ((eq_iff t "sent").0 e)))
      | inr a ↦ elim (Bool-cases (str_eq t "failed")) [
        | inl e ↦ absurd (h.1 (ap some ((eq_iff t "failed").0 e)))
        | inr b ↦ elim (Bool-cases (str_eq t "processing")) [
          | inl e ↦ absurd (h.2 (ap some ((eq_iff t "processing").0 e)))
          | inr c ↦ rw (a, b, c) refl
        ]
      ]
    ],
  )
