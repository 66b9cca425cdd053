-- ===== src/Db/Deliveries.antt =====
-- The statements of app/pipeline/device_idempotency.py on notification_push_deliveries, each with
-- the commit that follows it.
pub mod Laws
pub mod Moves
use inride_worker_manager.Prelude.{
  ℕ, ◌+◌, String, Bool, ◌&&◌, Option, none, some, [], ◌∷◌, ◌++◌, not, ◌==◌, str_eq, if◌then◌else◌,
  any, select, update_where, count,
}
use inride_worker_manager.Domain.{Uuid}
use inride_worker_manager.Db.{Db, Delivery}

-- the columns of the unique constraint
abbrev pub at_key : Uuid → Uuid → Delivery → Bool
at_key ledger device d = (d.notification_id == ledger) && (d.device_token_id == device)

-- a row of this ledger in this status
abbrev pub in_status : Uuid → String → Delivery → Bool
in_status ledger s d = (d.notification_id == ledger) && str_eq d.status s

unfoldable pub has_row : Db → Uuid → Uuid → Bool
has_row db ledger device = any (at_key ledger device) db.deliveries

abbrev pub new_row : Db → Uuid → Uuid → Delivery
new_row db ledger device = record {
  id = db.fresh_id;
  notification_id = ledger;
  device_token_id = device;
  status = "sending";
  created_at = some db.now;
  updated_at = some db.now;
}

-- INSERT … ON CONFLICT ON CONSTRAINT … DO NOTHING RETURNING id
unfoldable pub insert_delivery : Uuid → Uuid → Db → Option Uuid × Db
unfolding has_row
insert_delivery ledger device db =
    if has_row db ledger device then (none, record db { fresh_id = db.fresh_id + 1 }) else (
      some db.fresh_id,
      record db {
        deliveries = db.deliveries ++ new_row db ledger device ∷ [];
        fresh_id = db.fresh_id + 1;
      },
    )

-- SET status = 'sent', updated_at = now
abbrev pub as_sent : ℕ → Delivery → Delivery
as_sent now d = record d { status = "sent"; updated_at = some now }

-- UPDATE … SET status = 'sent' WHERE the key matches: whatever the status is
unfoldable pub mark_delivery_sent : Uuid → Uuid → Db → Db
mark_delivery_sent ledger device db = record db {
  deliveries = update_where (at_key ledger device) (as_sent db.now) db.deliveries;
}

abbrev pub is_open_claim : Uuid → Uuid → Delivery → Bool
is_open_claim ledger device d = at_key ledger device d && str_eq d.status "sending"

-- DELETE … WHERE the key matches AND status = 'sending'
unfoldable pub delete_sending : Uuid → Uuid → Db → Db
delete_sending ledger device db = record db {
  deliveries = select (λ d. not (is_open_claim ledger device d)) db.deliveries;
}

-- UPDATE … SET status = 'sent' WHERE notification_id = ledger AND status = 'sending', with the
-- row count
unfoldable pub seal_sending : Uuid → Db → ℕ × Db
seal_sending ledger db = (
  count (in_status ledger "sending") db.deliveries,
  record db {
    deliveries = update_where (in_status ledger "sending") (as_sent db.now) db.deliveries;
  },
)

-- SELECT id … WHERE notification_id = ledger AND status = 'sent' LIMIT 1: is there a row
unfoldable pub select_sent : Uuid → Db → Bool
select_sent ledger db = any (in_status ledger "sent") db.deliveries
