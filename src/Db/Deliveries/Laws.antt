-- ===== src/Db/Deliveries/Laws.antt =====
-- What the statements on the ledger do to the rows of one ledger id.
use inride_worker_manager.Db.{Db}
use inride_worker_manager.Db.Deliveries.{
  delete_sending, insert_delivery, mark_delivery_sent, seal_sending, as_sent, at_key, has_row,
  in_status, is_open_claim, new_row,
}
use inride_worker_manager.Domain.{Uuid}
use inride_worker_manager.Prelude.{
  ==_iff, str_eq, any-update_clear, any-update_hit, any-update_keep, String, [], any, any-append,
  any-select, arith, eq_iff, false, not, true, ◌∷◌, ◌≡◌,
}

-- the ledger id has a row in this status
abbrev pub HasStatus : Db → Uuid → String → Type 0
HasStatus db l s = any (in_status l s) db.deliveries ≡ true

pub not-sending_of_sent : (s : String) → str_eq s "sent" ≡ true → str_eq s "sending" ≡ false
not-sending_of_sent s h = rw ((eq_iff s "sent").0 h)

module _ (l : Uuid) where
  pub HasStatus-mark :
      (device : Uuid) (db : Db)
      → has_row db l device ≡ true
      → HasStatus (mark_delivery_sent l device db) l "sent"
  unfolding mark_delivery_sent has_row
  HasStatus-mark device db h =
      any-update_hit (in_status l "sent") (at_key l device) (as_sent db.now) db.deliveries
        (λ x e. ground arith) h

  pub HasStatus-seal : (db : Db) → HasStatus db l "sent" → HasStatus (seal_sending l db).1 l "sent"
  unfolding seal_sending
  HasStatus-seal db h =
      any-update_keep (in_status l "sent") (in_status l "sending") (as_sent db.now) db.deliveries
        (λ x e. ground arith) h

  pub HasStatus-insert :
      (a b : Uuid) (db : Db) → HasStatus db l "sent" → HasStatus (insert_delivery a b db).1 l "sent"
  unfolding insert_delivery
  HasStatus-insert a b db h =
      ground (arith, any-append (in_status l "sent") db.deliveries (new_row db a b ∷ []))

  pub HasStatus-delete :
      (a b : Uuid) (db : Db) → HasStatus db l "sent" → HasStatus (delete_sending a b db) l "sent"
  unfolding delete_sending
  HasStatus-delete a b db h =
      rw
        (any-select (in_status l "sent") (λ d. not (is_open_claim a b d)) db.deliveries
          (λ x e. ground (arith, not-sending_of_sent x.status)))
        h

  -- Sealing leaves no row of the ledger id in the status `sending`.
  pub sealed-seal : (db : Db) → any (in_status l "sending") (seal_sending l db).1.deliveries ≡ false
  unfolding seal_sending
  sealed-seal db =
      any-update_clear (in_status l "sending") (in_status l "sending") (as_sent db.now)
        db.deliveries (λ x e. e) (λ x. ground arith)

  -- A claim that returns an id leaves a row at its key.
  pub insert-has_row :
      (device : Uuid) (db : Db) → has_row (insert_delivery l device db).1 l device ≡ true
  unfolding insert_delivery any
  insert-has_row device db = ground (
    arith,
    any-append (at_key l device) db.deliveries (new_row db l device ∷ []),
    ==_iff l l,
    ==_iff device device,
  )
