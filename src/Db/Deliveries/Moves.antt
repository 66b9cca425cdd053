-- ===== src/Db/Deliveries/Moves.antt =====
-- What may happen to the ledger, whatever the worker does: the specification that the statements of
-- app/pipeline/device_idempotency.py and app/ingress/reclaim.py keep to.
use inride_worker_manager.Domain.{Uuid}
use inride_worker_manager.Db.Deliveries.{as_sent, at_key, is_open_claim}
use inride_worker_manager.Db.Deliveries.Laws.{not-sending_of_sent}
use inride_worker_manager.Db.{Delivery}
use inride_worker_manager.Prelude.{
  any-implied, any-select_and, any-update_none, ◌∙◌, ==_iff, any, any-append, any-select,
  any-update_keep, count, count-append, count-none, count-select-le, count-update_where, select,
  str_eq, update_where, ◌&&◌, ℕ, Bool, true, false, not, List, [], ◌∷◌, ◌++◌, ◌≡◌, ◌≤◌, refl, arith,
}

pub data LedgerMove : List Delivery → List Delivery → Type 0 where
  stays : (xs : List Delivery) → LedgerMove xs xs
  -- a row in status `sending` at a key that has none
  inserts :
      (xs : List Delivery) (row : Delivery)
      → any (at_key row.notification_id row.device_token_id) xs ≡ false
      → row.status ≡ "sending"
      → LedgerMove xs (xs ++ row ∷ [])
  -- some rows become `sent`
  marks :
      (xs : List Delivery) (p : Delivery → Bool) (now : ℕ)
      → LedgerMove xs (update_where p (as_sent now) xs)
  -- the open rows at a key go
  deletes :
      (xs : List Delivery) (ledger device : Uuid)
      → LedgerMove xs (select (λ d. not (is_open_claim ledger device d)) xs)

abbrev pub is_unknown : Delivery → Bool
is_unknown d = not (str_eq d.status "sending") && not (str_eq d.status "sent")

-- the unique constraint, and the values of the status
pub record LedgerOk (xs : List Delivery) : Type 0 where
  pub unique : (ledger device : Uuid) → count (at_key ledger device) xs ≤ 1
  pub known : any is_unknown xs ≡ false

-- the row of a pair that has been sent
abbrev pub sent_at : Uuid → Uuid → Delivery → Bool
sent_at ledger device d = at_key ledger device d && str_eq d.status "sent"

LedgerOk-append :
    (xs : List Delivery) (row : Delivery)
    → any (at_key row.notification_id row.device_token_id) xs ≡ false
    → row.status ≡ "sending"
    → LedgerOk xs
    → LedgerOk (xs ++ row ∷ [])
unfolding any count
LedgerOk-append xs row free e ok = record {
  unique = λ l d. ground (
    arith,
    count-append (at_key l d) xs (row ∷ []),
    ok.unique l d,
    ==_iff row.notification_id l,
    ==_iff row.device_token_id d,
    count-none (at_key row.notification_id row.device_token_id) xs free,
  );
  known = rw (any-append is_unknown xs (row ∷ []), e, ok.known) refl;
}

pub LedgerMove-LedgerOk : {xs ys : List Delivery} → LedgerMove xs ys → LedgerOk xs → LedgerOk ys
LedgerMove-LedgerOk (stays xs) ok = ok
LedgerMove-LedgerOk (inserts xs row free e) ok = LedgerOk-append xs row free e ok
LedgerMove-LedgerOk (marks xs p now) ok = record {
  unique =
      λ l d. rw (count-update_where (at_key l d) p (as_sent now) xs (λ x. refl)) (ok.unique l d);
  known = any-update_none is_unknown p (as_sent now) xs (λ x. refl) ok.known;
}
LedgerMove-LedgerOk (deletes xs l d) ok = record {
  unique = λ a b.
      omega
        (arith, ok.unique a b, count-select-le (at_key a b) (λ x. not (is_open_claim l d x)) xs);
  known =
      any-select_and is_unknown (λ x. not (is_open_claim l d x)) xs
      ∙ any-implied (λ x. is_unknown x && not (is_open_claim l d x)) is_unknown xs
          (λ x e. ground (arith, e)) ok.known;
}

pub LedgerMove-sent :
    {xs ys : List Delivery} (ledger device : Uuid)
    → LedgerMove xs ys
    → any (sent_at ledger device) xs ≡ true
    → any (sent_at ledger device) ys ≡ true
LedgerMove-sent l d (stays xs) h = h
LedgerMove-sent l d (inserts xs row free e) h = rw (any-append (sent_at l d) xs (row ∷ []), h) refl
LedgerMove-sent l d (marks xs p now) h =
    any-update_keep (sent_at l d) p (as_sent now) xs (λ x e. ground (arith, e)) h
LedgerMove-sent l d (deletes xs a b) h =
    rw
      (any-select (sent_at l d) (λ x. not (is_open_claim a b x)) xs
        (λ x e. ground (arith, e, not-sending_of_sent x.status)))
      h
