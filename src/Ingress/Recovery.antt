-- ===== src/Ingress/Recovery.antt =====
-- What app/ingress/reclaim.py does to stuck notifications, while the database does not fail.
use inride_worker_manager.Ingress.Reclaim.{count_reclaimed, reclaim_stale}
use inride_worker_manager.Effect.Calm.{
  Ends, Ends-bind, Ends-returns, Ends-weaken, calm_respond, exec_calm,
}
use inride_worker_manager.Domain.{Uuid}
use inride_worker_manager.Db.Notifications.{
  sealable, claimable, has_id, id_of, is_pending, member, with_status,
}
use inride_worker_manager.Db.Deliveries.{as_sent, at_key, has_row, in_status}
use inride_worker_manager.Effect.World.{effect, exec, World}
use inride_worker_manager.Db.{Delivery, Db, Notification}
use inride_worker_manager.Prelude.{
  Option, ltb, negsuc, pos, some, suc, ◌*◌, ℤ, any-update_keep, ==_iff, not, sym, update_where,
  ◌==◌, ◌∙◌, Bool, List, String, [], any, any-update_carry, any-update_clear, any-update_where, ap,
  arith, count, count-update_gain, eq_iff, false, map, none, refl, select, str_eq, true, ℕ, ◌&&◌,
  ◌+◌, ◌∷◌, ◌≡◌,
}
use inride_worker_manager.Monitoring
use inride_worker_manager.Effect.{ok, perform, when, reclaim_rows}
use mathlib.Core.Path.{fun_ext, subst}
use inride_worker_manager.Db.Notifications

-- the time is longer ago than this many seconds, in microseconds
abbrev pub is_past : ℤ → ℕ → ℕ → Bool
is_past (pos s) now t = ltb (t + s * 1000000) now
is_past (negsuc s) now t = ltb t (now + suc s * 1000000)

abbrev pub has_waited : ℤ → ℕ → Option ℕ → Bool
has_waited seconds now none = false
has_waited seconds now (some t) = is_past seconds now t

-- Claimed longer ago than the limit, and not finished: what a reclaim is for.
abbrev pub is_stuck : ℤ → Db → Notification → Bool
is_stuck seconds db n = str_eq n.push_status "processing" && has_waited seconds db.now n.updated_at

abbrev pub stuck_with_id : ℤ → Db → Uuid → Notification → Bool
stuck_with_id seconds db id n = has_id id n && is_stuck seconds db n

pub record Recovered (seconds : ℤ) (w : World) (n : ℕ) (v : World) : Type 0 where
  pub counted : n ≡ count (is_stuck seconds w.db) w.db.notifications
  pub none_stuck : any (is_stuck seconds w.db) v.db.notifications ≡ false
  pub pending_again :
      (id : Uuid)
      → any (stuck_with_id seconds w.db id) w.db.notifications ≡ true
      → any (claimable id) v.db.notifications ≡ true
  pub pending_kept :
      (id : Uuid)
      → any (claimable id) w.db.notifications ≡ true
      → any (claimable id) v.db.notifications ≡ true
  pub pending_grows : count is_pending v.db.notifications ≡ count is_pending w.db.notifications + n
  pub sealed :
      (id : Uuid)
      → any (stuck_with_id seconds w.db id) w.db.notifications ≡ true
      → any (in_status id "sending") v.db.deliveries ≡ false
  pub rows_kept : (ledger device : Uuid) → has_row v.db ledger device ≡ has_row w.db ledger device
  pub tables : v.db ≡ (Notifications.reclaim_rows seconds w.db).1
  pub pushes : v.pushes ≡ w.pushes

member-of_stuck :
    (seconds : ℤ) (db : Db) (id : Uuid) (ns : List Notification)
    → any (stuck_with_id seconds db id) ns ≡ true
    → member (map id_of (select (is_stuck seconds db) ns)) id ≡ true
unfolding any select
member-of_stuck seconds db id [] h = cc
member-of_stuck seconds db id (n ∷ ns) h = ground (arith, member-of_stuck seconds db id ns)

not_pending : (s : String) → str_eq s "processing" ≡ true → str_eq s "pending" ≡ false
not_pending s h = rw ((eq_iff s "processing").0 h)

sealed-in_status :
    (id now : ℕ) (ids : List Uuid) (ds : List Delivery)
    → member ids id ≡ true
    → any (in_status id "sending") (update_where (sealable ids) (as_sent now) ds) ≡ false
sealed-in_status id now ids ds h =
    any-update_clear (in_status id "sending") (sealable ids) (as_sent now) ds
      (λ d e. ground (arith, ap (member ids) ((==_iff d.notification_id id).0 (ground arith)), h))
      (λ d. ground arith)

waited_lem :
    (seconds : ℤ) (now : ℕ) (o : Option ℕ)
    → Notifications.older_than now seconds o ≡ has_waited seconds now o
waited_lem seconds now none = refl
waited_lem (pos s) now (some t) = refl
waited_lem (negsuc s) now (some t) = refl

-- the statement on the rows that satisfy a condition
abbrev reclaimed_where : (Notification → Bool) → Db → (ℕ × ℕ) × Db
reclaimed_where stuck db =
    let ids = map id_of (select stuck db.notifications) in
    (
      (count stuck db.notifications, count (sealable ids) db.deliveries),
      record db {
        notifications = update_where stuck (with_status "pending" none db.now) db.notifications;
        deliveries = update_where (sealable ids) (as_sent db.now) db.deliveries;
      },
    )

reclaim_rows_lem :
    (seconds : ℤ) (db : Db)
    → Notifications.reclaim_rows seconds db ≡ reclaimed_where (is_stuck seconds db) db
unfolding Notifications.reclaim_rows
reclaim_rows_lem seconds db =
    ap (λ p. reclaimed_where p db)
      (fun_ext λ n.
        ap (λ b. str_eq n.push_status "processing" && b) (waited_lem seconds db.now n.updated_at))

reclaim_rows-Recovered :
    (seconds : ℤ) (w v : World) (counts : ℕ × ℕ)
    → counts ≡ (reclaimed_where (is_stuck seconds w.db) w.db).0
    → v.db ≡ (reclaimed_where (is_stuck seconds w.db) w.db).1
    → v.pushes ≡ w.pushes
    → Recovered seconds w counts.0 v
unfolding has_row
reclaim_rows-Recovered seconds w v counts c d p = record {
  counted = ap (λ x. x.0) c;
  none_stuck = rw d (
      any-update_clear (is_stuck seconds w.db) (is_stuck seconds w.db)
        (with_status "pending" none w.db.now) w.db.notifications (λ n e. e) (λ n. refl));
  pending_again = λ id h. rw d (
      any-update_carry (stuck_with_id seconds w.db id) (claimable id) (is_stuck seconds w.db)
        (with_status "pending" none w.db.now) w.db.notifications (λ n e. ground arith)
        (λ n e. ground arith) h);
  pending_kept = λ id h. rw d (
      any-update_keep (claimable id) (is_stuck seconds w.db) (with_status "pending" none w.db.now)
        w.db.notifications (λ n e. ground arith) h);
  pending_grows =
      rw (d, c)
        (count-update_gain is_pending (is_stuck seconds w.db) (with_status "pending" none w.db.now)
          w.db.notifications (λ n e. ground (arith, not_pending n.push_status)) (λ n. refl));
  sealed = λ id h. rw d (
      sealed-in_status id w.db.now _ w.db.deliveries
        (member-of_stuck seconds w.db id w.db.notifications h));
  rows_kept =
      λ l x. rw d (any-update_where (at_key l x) _ (as_sent w.db.now) w.db.deliveries (λ y. refl));
  tables = d ∙ sym (ap (λ x. x.1) (reclaim_rows_lem seconds w.db));
  pushes = p;
}

abbrev SameTables : World → Unit {0} → World → Type 0
SameTables w x v = (v.db ≡ w.db) × (v.pushes ≡ w.pushes)

count_when-Ends :
    (b : Bool) (key : String) (ls : List (String × String)) (n : ℕ) (w : World)
    → Ends (SameTables w) (when b (Monitoring.inc key ls n)) w
unfolding Monitoring.inc exec_calm calm_respond effect
count_when-Ends true key ls n w = record { at = (refl, refl) }
count_when-Ends false key ls n w = record { at = (refl, refl) }

count_reclaimed-Ends :
    (counts : ℕ × ℕ) (w : World)
    → Ends (λ n v. (n ≡ counts.0) × SameTables w tt v) (count_reclaimed counts) w
unfolding count_reclaimed Monitoring.reclaim Monitoring.claim exec_calm
count_reclaimed-Ends (n, m) w =
    Ends-bind (SameTables w) _ _ w (count_when-Ends (not (n == 0)) _ [] n w) λ x u a.
      Ends-bind (SameTables u) _ _ u (count_when-Ends (not (m == 0)) _ _ m u)
        λ y v b. record { at = (refl, (b.0 ∙ a.0, b.1 ∙ a.1)) }

abbrev Rows : ℤ → World → ℕ × ℕ → World → Type 0
Rows seconds w counts v =
    (counts ≡ (Notifications.reclaim_rows seconds w.db).0)
    × (v.db ≡ (Notifications.reclaim_rows seconds w.db).1)
    × (v.pushes ≡ w.pushes)

Rows-Ends : (seconds : ℤ) (w : World) → Ends (Rows seconds w) (perform (reclaim_rows seconds)) w
unfolding exec_calm calm_respond effect
Rows-Ends seconds w = record { at = (refl, refl, refl) }

pub reclaim_stale-Ends :
    (seconds : ℤ) (w : World) → Ends (Recovered seconds w) (reclaim_stale seconds) w
unfolding reclaim_stale
reclaim_stale-Ends seconds w =
    Ends-bind (Rows seconds w) (perform (reclaim_rows seconds)) count_reclaimed w
      (Rows-Ends seconds w)
      λ counts u r.
        Ends-weaken _ (count_reclaimed counts) u (count_reclaimed-Ends counts u) λ n v k.
          subst (λ i. Recovered seconds w i v) (sym k.0)
            (reclaim_rows-Recovered seconds w v counts
              (r.0 ∙ ap (λ x. x.0) (reclaim_rows_lem seconds w.db))
              (k.1.0 ∙ r.1 ∙ ap (λ x. x.1) (reclaim_rows_lem seconds w.db)) (k.1.1 ∙ r.2))

-- While the database does not fail, a reclaim returns the number of the rows that were stuck: in
-- status `processing` for longer than the limit. After it none is stuck, every id that had a
-- stuck row can be claimed again, every id that could be claimed still can, there are as many
-- more pending rows, no ledger row of such an id is left `sending`, every key of the ledger that
-- had a row has one and no other has, and no push is confirmed.
pub reclaim_recovers :
    (seconds : ℤ) (w : World)
    → w.answers ≡ []
    → (n : ℕ) × (v : World) × (exec (reclaim_stale seconds) w ≡ (ok n, v)) × Recovered seconds w n v
reclaim_recovers seconds w e =
    Ends-returns (reclaim_stale seconds) w e (reclaim_stale-Ends seconds w)
