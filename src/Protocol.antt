-- ===== src/Protocol.antt =====
-- Which operations a thread of the worker may make at which point, so that threads that share the
-- ledger never push twice to one device. A thread that has inserted the ledger row of a pair
-- holds the pair until Expo confirms the push; while it holds the pair it may delete the row, and
-- after a refusal it may not push again.
pub mod Rules
mod Pieces
pub mod Programs
mod Entries
pub mod Keys
pub mod System
mod Invariant
pub mod Ledger
pub mod Safety
pub mod Schedule
pub mod Recovery
pub mod Course
pub mod Statuses
use inride_worker_manager.Prelude.{Bool, false, ◌&&◌, ◌≡◌, ◌==◌, some}
use inride_worker_manager.Domain.{Uuid}
use inride_worker_manager.Effect.{
  Result, ok, raised, Op, Reply, insert_delivery, delete_sending, publish, Prog, done, call,
}

pub data Phase : Type 0 where
  idle : Phase
  holding : Uuid → Uuid → Phase
  refused : Uuid → Uuid → Phase

abbrev pub holds : Phase → Uuid → Uuid → Bool
holds idle l d = false
holds (holding a b) l d = (a == l) && (b == d)
holds (refused a b) l d = (a == l) && (b == d)

abbrev pub MayPublish : Phase → Uuid → Uuid → Type 0
MayPublish idle l d = ⊥
MayPublish (holding a b) l d = (a ≡ l) × (b ≡ d)
MayPublish (refused a b) l d = ⊥

abbrev pub MayDelete : Phase → Uuid → Uuid → Type 0
MayDelete idle l d = ⊥
MayDelete (holding a b) l d = (a ≡ l) × (b ≡ d)
MayDelete (refused a b) l d = (a ≡ l) × (b ≡ d)

abbrev pub Allowed : Phase → Op → Type 0
Allowed p (publish c l d m) = MayPublish p l d
Allowed p (delete_sending l d) = MayDelete p l d
Allowed p o = Unit

abbrev after_insert : Phase → Uuid → Uuid → Result (Reply (insert_delivery 0 0)) → Phase
after_insert p l d (ok (some id)) = holding l d
after_insert p l d r = p

abbrev after_publish : Uuid → Uuid → Result (Unit {0}) → Phase
after_publish l d (ok u) = idle
after_publish l d (raised e) = refused l d

-- The phase after an operation and its result.
abbrev pub next : Phase → (o : Op) → Result (Reply o) → Phase
next p (insert_delivery l d) r = after_insert p l d r
next p (publish c l d m) r = after_publish l d r
next p (delete_sending l d) r = idle
next p o r = p

-- Every run of the program from this phase makes only allowed operations, and ends as `Q` says.
abbrev pub Obeys : {A : Type 0} → (Phase → Result A → Type 0) → Phase → Prog A → Type 0
Obeys Q p (done r) = Q p r
Obeys Q p (call o k) = Allowed p o × ((r : Result (Reply o)) → Obeys Q (next p o r) (k r))

abbrev pub Anyhow : {A : Type 0} → Phase → Result A → Type 0
Anyhow p r = Unit

-- A program that may run in any phase.
pub record IsFree {A : Type 0} (m : Prog A) : Type 0 where
  pub at : (p : Phase) → Obeys Anyhow p m
