-- ===== src/Protocol/Ledger.antt =====
-- What holds of the ledger of app/pipeline/device_idempotency.py from one state of the system to
-- a later one.
use inride_worker_manager.Domain.{DeliveryPolicy, Uuid}
use inride_worker_manager.Db.{Delivery}
use inride_worker_manager.Effect.Ledger.{respond-Moves}
use inride_worker_manager.Core.{Config}
use inride_worker_manager.Protocol.System.{act, begins, others, Step, System}
use inride_worker_manager.Ingress.PubsubSubscriber.{Codec}
use inride_worker_manager.Db.Deliveries.Moves.{
  LedgerMove, LedgerMove-LedgerOk, LedgerMove-sent, LedgerOk, sent_at, stays,
}
use mathlib.Core.Path.{subst}
use inride_worker_manager.Prelude.{List, any, ◌≡◌, true, sym}

-- any number of steps of the threads and of others
pub data Steps (cfg : Config) (policy : DeliveryPolicy) (codec : Codec) (s : System)
    : System → Type 0 where
  no_step : Steps cfg policy codec s s
  one_more :
      {t u : System}
      → Steps cfg policy codec s t
      → Step cfg policy codec t u
      → Steps cfg policy codec s u

abbrev pub ledger_rows : System → List Delivery
ledger_rows s = s.world.db.deliveries

module _ {cfg : Config} {policy : DeliveryPolicy} {codec : Codec} where
  Step-LedgerMove :
      {s t : System} → Step cfg policy codec s t → LedgerMove (ledger_rows s) (ledger_rows t)
  Step-LedgerMove (act s i o k e) = respond-Moves o s.world
  Step-LedgerMove (begins s i e) = stays (ledger_rows s)
  Step-LedgerMove (others s db answers expo e) =
      subst (λ rows. LedgerMove (ledger_rows s) rows) (sym e) (stays (ledger_rows s))

  -- If at some time the ledger has at most one row for each ledger id and device, and only rows
  -- that are `sending` or `sent`, then it does at each later time.
  pub ledger_stays_ok :
      {s t : System}
      → Steps cfg policy codec s t
      → LedgerOk (ledger_rows s)
      → LedgerOk (ledger_rows t)
  ledger_stays_ok no_step good = good
  ledger_stays_ok (one_more r st) good =
      LedgerMove-LedgerOk (Step-LedgerMove st) (ledger_stays_ok r good)

  -- A row that is `sent` for a ledger id and a device stays: no release, no second claim, no
  -- reclaim and no crash undoes it.
  pub sent_stays :
      {s t : System} (ledger device : Uuid)
      → Steps cfg policy codec s t
      → any (sent_at ledger device) (ledger_rows s) ≡ true
      → any (sent_at ledger device) (ledger_rows t) ≡ true
  sent_stays l d no_step h = h
  sent_stays l d (one_more r st) h = LedgerMove-sent l d (Step-LedgerMove st) (sent_stays l d r h)
