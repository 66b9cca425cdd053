-- ===== src/Protocol/Keys.antt =====
-- What one operation does to one pair of notification and device: to its row in the ledger, to the
-- number of pushes that Expo has confirmed for it, and to the thread's hold on it.
use inride_worker_manager.Protocol.{Allowed, holding, idle, refused, Phase, holds, next}
use inride_worker_manager.Effect.{
  increment, Client, PushMessage, claim_pending, delete_sending, insert_delivery,
  mark_delivery_sent, publish, reclaim_rows, seal_sending, Op, Reply, Result, ok, raised,
}
use inride_worker_manager.Domain.{Uuid}
use inride_worker_manager.Effect.World.{
  later_answers, next_answer, respond, Answer, answered, effect, fails_after, fails_before, fine,
  unanswered, World,
}
use inride_worker_manager.Db.{Db, Delivery}
use inride_worker_manager.Prelude.{
  ℤ, if◌then◌else◌, none, some, inl, ==_iff, [], any-append, ◌∷◌, Bool, any, any-select,
  any-update_where, arith, count, false, refl, true, ℕ, ◌&&◌, ◌+◌, ◌==◌, ◌||◌, ◌≡◌, ◌⊎◌,
}
use inride_worker_manager.Db.Deliveries.{new_row, as_sent, at_key, has_row, in_status}
use inride_worker_manager.Db.Notifications
use inride_worker_manager.Db.Deliveries
use inride_worker_manager.Db.Directory

abbrev pub is_key : Uuid → Uuid → Uuid × Uuid → Bool
is_key l d (a, b) = (a == l) && (b == d)

-- how often Expo has confirmed a push for the pair
unfoldable pub pushed : World → Uuid → Uuid → ℕ
pushed w l d = count (is_key l d) w.pushes

-- The row stays or appears and no push is counted; or the thread takes a pair that had no row; or
-- it gives a pair up with a confirmed push; or it gives the pair up with none.
abbrev pub KeyStep : (held held' row row' : Bool) (n n' : ℕ) → Type 0
KeyStep held held' row row' n n' =
    ((held' ≡ true → held ≡ true) × (row ≡ true → row' ≡ true) × (n' ≡ n))
    ⊎ ((row ≡ false) × (row' ≡ true) × (n' ≡ n) × (held' ≡ true))
    ⊎ ((held ≡ true) × (held' ≡ false) × (row' ≡ row) × (n' ≡ n + 1))
    ⊎ ((held ≡ true) × (held' ≡ false) × (n' ≡ n))

module _ (l d : Uuid) where
  key_after_as_sent : (now : ℕ) (x : Delivery) → at_key l d (as_sent now x) ≡ at_key l d x
  key_after_as_sent now x = refl

  row-mark :
      (a b : Uuid) (db : Db) → has_row (Deliveries.mark_delivery_sent a b db) l d ≡ has_row db l d
  unfolding Deliveries.mark_delivery_sent has_row
  row-mark a b db =
      any-update_where (at_key l d) (at_key a b) (as_sent db.now) db.deliveries
        (key_after_as_sent db.now)

  row-seal : (a : Uuid) (db : Db) → has_row (Deliveries.seal_sending a db).1 l d ≡ has_row db l d
  unfolding Deliveries.seal_sending has_row
  row-seal a db =
      any-update_where (at_key l d) (in_status a "sending") (as_sent db.now) db.deliveries
        (key_after_as_sent db.now)

  row-reclaim : (s : ℤ) (db : Db) → has_row (Notifications.reclaim_rows s db).1 l d ≡ has_row db l d
  unfolding Notifications.reclaim_rows has_row
  row-reclaim s db =
      any-update_where (at_key l d) _ (as_sent db.now) db.deliveries (key_after_as_sent db.now)

  row-claim :
      (id : Uuid) (db : Db) → has_row (Notifications.claim_pending id db).1 l d ≡ has_row db l d
  unfolding Notifications.claim_pending has_row
  row-claim id db = ground arith

  row-insert :
      (a b : Uuid) (db : Db)
      → has_row (Deliveries.insert_delivery a b db).1 l d
        ≡ (has_row db l d || ((a == l) && (b == d)))
  unfolding Deliveries.insert_delivery has_row any
  row-insert a b db =
      ground
        (arith, ==_iff a l, ==_iff b d, any-append (at_key l d) db.deliveries (new_row db a b ∷ []))

  reply-insert :
      (a b : Uuid) (db : Db)
      → (Deliveries.insert_delivery a b db).0 ≡ (if has_row db a b then none else some db.fresh_id)
  unfolding Deliveries.insert_delivery
  reply-insert a b db = ground arith

  row-delete :
      (a b : Uuid) (db : Db)
      → ((a == l) && (b == d)) ≡ false
      → has_row (Deliveries.delete_sending a b db) l d ≡ has_row db l d
  unfolding Deliveries.delete_sending has_row
  row-delete a b db ne = any-select (at_key l d) _ db.deliveries (λ x h. ground arith)

  abbrev SameKey : World → World → Type 0
  SameKey w w' = (has_row w'.db l d ≡ has_row w.db l d) × (pushed w' l d ≡ pushed w l d)

  -- the step of one thread, seen at the pair
  abbrev pub StepsKey : Phase → (o : Op) → World → Result (Reply o) × World → Type 0
  StepsKey p o w (r, w') =
      KeyStep (holds p l d) (holds (next p o r) l d) (has_row w.db l d) (has_row w'.db l d)
        (pushed w l d) (pushed w' l d)

  neutral :
      (o : Op) (p : Phase)
      → ((r : Result (Reply o)) → next p o r ≡ p)
      → ((w : World) → SameKey w (effect o w).1)
      → ((w : World) → SameKey w (unanswered o w))
      → (a : Answer) (w : World) → StepsKey p o w (answered o a w)
  neutral o p keeps same after fine w =
      let (r, w') = effect o w in inl (λ h. rw (← keeps (ok r)) h, λ h. rw (same w).0 h, (same w).1)
  neutral o p keeps same after (fails_before e) w =
      inl (λ h. rw (← keeps (raised e)) h, λ h. h, refl)
  neutral o p keeps same after (fails_after e) w =
      inl (λ h. rw (← keeps (raised e)) h, λ h. rw (after w).0 h, (after w).1)

  same : (w : World) → SameKey w w
  same w = (refl, refl)

  insert-StepsKey :
      (a b : Uuid) (p : Phase) (ans : Answer) (w : World)
      → StepsKey p (insert_delivery a b) w (answered (insert_delivery a b) ans w)
  unfolding effect unanswered pushed
  insert-StepsKey a b p fine w =
      ground (arith, ==_iff a l, ==_iff b d, row-insert a b w.db, reply-insert a b w.db)
  insert-StepsKey a b p (fails_before e) w = inl (λ h. h, λ h. h, refl)
  insert-StepsKey a b p (fails_after e) w = inl (λ h. h, λ h. rw (row-insert a b w.db) (rw h), refl)

  publish-StepsKey :
      (c : Client) (a b : Uuid) (m : PushMessage) (p : Phase) (ans : Answer) (w : World)
      → Allowed p (publish c a b m)
      → StepsKey p (publish c a b m) w (answered (publish c a b m) ans w)
  unfolding effect unanswered pushed count
  publish-StepsKey c a b m (holding x y) fine w h = ground (arith, ==_iff a l, ==_iff b d)
  publish-StepsKey c a b m (holding x y) (fails_before e) w h =
      inl (λ k. ground arith, λ k. k, refl)
  publish-StepsKey c a b m (holding x y) (fails_after e) w h = inl (λ k. ground arith, λ k. k, refl)
  publish-StepsKey c a b m idle ans w h = absurd h
  publish-StepsKey c a b m (refused x y) ans w h = absurd h

  delete-keeps :
      (a b : Uuid) (ans : Answer) (w : World)
      → (((a == l) && (b == d)) ≡ false
          → has_row (answered (delete_sending a b) ans w).1.db l d ≡ has_row w.db l d)
        × (pushed (answered (delete_sending a b) ans w).1 l d ≡ pushed w l d)
  unfolding effect unanswered pushed
  delete-keeps a b fine w = (λ e. row-delete a b w.db e, refl)
  delete-keeps a b (fails_before e) w = (λ e. refl, refl)
  delete-keeps a b (fails_after e) w = (λ e. row-delete a b w.db e, refl)

  delete-StepsKey :
      (a b : Uuid) (p : Phase) (ans : Answer) (w : World)
      → Allowed p (delete_sending a b)
      → StepsKey p (delete_sending a b) w (answered (delete_sending a b) ans w)
  unfolding effect unanswered pushed
  delete-StepsKey a b (holding x y) ans w h = ground (arith, delete-keeps a b ans w)
  delete-StepsKey a b (refused x y) ans w h = ground (arith, delete-keeps a b ans w)
  delete-StepsKey a b idle ans w h = absurd h

  answered-StepsKey :
      (o : Op) (p : Phase) (a : Answer) (w : World) → Allowed p o → StepsKey p o w (answered o a w)
  unfolding effect unanswered pushed Notifications.update_status Notifications.claim_batch has_row
      Directory.deactivate_devices
  answered-StepsKey (insert_delivery x y) p a w h = insert-StepsKey x y p a w
  answered-StepsKey (publish c x y m) p a w h = publish-StepsKey c x y m p a w h
  answered-StepsKey (delete_sending x y) p a w h = delete-StepsKey x y p a w h
  answered-StepsKey (reclaim_rows s) p a w h =
      neutral (reclaim_rows s) p (λ r. refl) (λ v. (row-reclaim s v.db, refl))
        (λ v. (row-reclaim s v.db, refl)) a w
  answered-StepsKey (mark_delivery_sent x y) p a w h =
      neutral (mark_delivery_sent x y) p (λ r. refl) (λ v. (row-mark x y v.db, refl))
        (λ v. (row-mark x y v.db, refl)) a w
  answered-StepsKey (seal_sending x) p a w h =
      neutral (seal_sending x) p (λ r. refl) (λ v. (row-seal x v.db, refl))
        (λ v. (row-seal x v.db, refl)) a w
  answered-StepsKey (claim_pending x) p a w h =
      neutral (claim_pending x) p (λ r. refl) (λ v. (row-claim x v.db, refl))
        (λ v. (row-claim x v.db, refl)) a w
  answered-StepsKey o p a w h = neutral o p (λ r. refl) same same a w

  -- Each operation that the discipline allows is a step of the pair.
  pub respond-StepsKey :
      (o : Op) (p : Phase) (w : World) → Allowed p o → StepsKey p o w (respond o w)
  unfolding respond pushed
  respond-StepsKey (increment key n) p w h = answered-StepsKey (increment key n) p fine w h
  respond-StepsKey (publish c a b m) p w h =
      answered-StepsKey (publish c a b m) p (next_answer w.expo)
        (record w { expo = later_answers w.expo }) h
  respond-StepsKey o p w h =
      answered-StepsKey o p (next_answer w.answers) (record w { answers = later_answers w.answers })
        h
