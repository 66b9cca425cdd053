-- ===== src/Protocol/Invariant.antt =====
-- What holds in every state of the system.
use inride_worker_manager.Db.{Db}
use inride_worker_manager.Domain.{Uuid}
use inride_worker_manager.Protocol.System.{begin, initial, interfere, System, advance}
use inride_worker_manager.Effect.World.{Answer, World, respond}
use inride_worker_manager.Db.Deliveries.{has_row}
use inride_worker_manager.Protocol.Keys.{is_key, StepsKey, pushed, respond-StepsKey}
use inride_worker_manager.Protocol.{IsFree, idle, Obeys, Anyhow, holds}
use inride_worker_manager.Effect.{Op, Prog, Reply, Result, call}
use inride_worker_manager.Prelude.{
  ap, List, [], count, Bool-cases, arith, inl, inr, true, ℕ, ◌<◌, ◌==◌, ◌≡◌, ◌≤◌,
}

pub record Inv (s : System) : Type 0 where
  pub obeys : (i : ℕ) → Obeys Anyhow (s.phase i) (s.prog i)
  pub held_row : (i : ℕ) (l d : Uuid) → holds (s.phase i) l d ≡ true → has_row s.world.db l d ≡ true
  pub alone :
      (i j : ℕ) (l d : Uuid) → holds (s.phase i) l d ≡ true → holds (s.phase j) l d ≡ true → i ≡ j
  pub unpushed : (i : ℕ) (l d : Uuid) → holds (s.phase i) l d ≡ true → pushed s.world l d ≡ 0
  pub once : (l d : Uuid) → pushed s.world l d ≤ 1
  pub recorded : (l d : Uuid) → 0 < pushed s.world l d → has_row s.world.db l d ≡ true

module _ (s : System) (i : ℕ) (o : Op) (k : Result (Reply o) → Prog (Unit {0})) (v : Inv s)
    (at_o : Obeys Anyhow (s.phase i) (call o k)) where
  key_step : (l d : Uuid) → StepsKey l d (s.phase i) o s.world (respond o s.world)
  key_step l d = respond-StepsKey l d o (s.phase i) s.world at_o.0

  advance-Obeys : (j : ℕ) → Obeys Anyhow ((advance s i o k).phase j) ((advance s i o k).prog j)
  advance-Obeys j = elim (Bool-cases (i == j)) [
    | inl e ↦ rw e (at_o.1 (respond o s.world).0)
    | inr e ↦ rw e (v.obeys j)
  ]

  advance-held_row :
      (j : ℕ) (l d : Uuid)
      → holds ((advance s i o k).phase j) l d ≡ true
      → has_row (advance s i o k).world.db l d ≡ true
  advance-held_row j l d h = elim (Bool-cases (i == j)) [
    | inl e ↦ ground (arith, key_step l d, v.held_row i l d)
    | inr e ↦ ground (arith, key_step l d, v.held_row i l d, v.held_row j l d, v.alone i j l d)
  ]

  advance-alone :
      (j n : ℕ) (l d : Uuid)
      → holds ((advance s i o k).phase j) l d ≡ true
      → holds ((advance s i o k).phase n) l d ≡ true
      → j ≡ n
  advance-alone j n l d h g = elim (Bool-cases (i == j)) [
    | inl e ↦ elim (Bool-cases (i == n)) [
      | inl e' ↦ ground arith
      | inr e' ↦ ground (arith, key_step l d, v.held_row n l d, v.alone i n l d)
    ]
    | inr e ↦ elim (Bool-cases (i == n)) [
      | inl e' ↦ ground (arith, key_step l d, v.held_row j l d, v.alone j i l d)
      | inr e' ↦ ground (arith, v.alone j n l d)
    ]
  ]

  advance-unpushed :
      (j : ℕ) (l d : Uuid)
      → holds ((advance s i o k).phase j) l d ≡ true
      → pushed (advance s i o k).world l d ≡ 0
  advance-unpushed j l d h = elim (Bool-cases (i == j)) [
    | inl e ↦ ground (arith, key_step l d, v.unpushed i l d, v.recorded l d)
    | inr e ↦ ground (arith, key_step l d, v.unpushed j l d, v.alone i j l d)
  ]

  advance-once : (l d : Uuid) → pushed (advance s i o k).world l d ≤ 1
  advance-once l d = ground (arith, key_step l d, v.once l d, v.unpushed i l d)

  advance-recorded :
      (l d : Uuid)
      → 0 < pushed (advance s i o k).world l d
      → has_row (advance s i o k).world.db l d ≡ true
  advance-recorded l d h =
      ground (arith, key_step l d, v.recorded l d, v.unpushed i l d, v.held_row i l d)

  pub advance-Inv : Inv (advance s i o k)
  advance-Inv = record {
    obeys = advance-Obeys;
    held_row = advance-held_row;
    alone = advance-alone;
    unpushed = advance-unpushed;
    once = advance-once;
    recorded = advance-recorded;
  }

module _ (s : System) (v : Inv s) where
  begin-held :
      (i : ℕ) (m : Prog (Unit {0})) (j : ℕ) (l d : Uuid)
      → holds ((begin s i m).phase j) l d ≡ true
      → holds (s.phase j) l d ≡ true
  begin-held i m j l d h = elim (Bool-cases (i == j)) [
    | inl e ↦ ground arith
    | inr e ↦ ground arith
  ]

  pub begin-Inv : (i : ℕ) (m : Prog (Unit {0})) → IsFree m → Inv (begin s i m)
  begin-Inv i m f = record {
    obeys = λ j. elim (Bool-cases (i == j)) [ inl e ↦ rw e (f.at idle) | inr e ↦ rw e (v.obeys j) ];
    held_row = λ j l d h. v.held_row j l d (begin-held i m j l d h);
    alone = λ j n l d h g. v.alone j n l d (begin-held i m j l d h) (begin-held i m n l d g);
    unpushed = λ j l d h. v.unpushed j l d (begin-held i m j l d h);
    once = v.once;
    recorded = v.recorded;
  }

  pub interfere-Inv :
      (db : Db) (answers expo : List Answer)
      → db.deliveries ≡ s.world.db.deliveries
      → Inv (interfere s db answers expo)
  unfolding has_row pushed
  interfere-Inv db answers expo e = record {
    obeys = v.obeys;
    held_row = λ i l d h. rw e (v.held_row i l d h);
    alone = v.alone;
    unpushed = v.unpushed;
    once = v.once;
    recorded = λ l d h. rw e (v.recorded l d h);
  }

pub initial-Inv : (w : World) → w.pushes ≡ [] → Inv (initial w)
unfolding pushed count
initial-Inv w e = record {
  obeys = λ i. tt;
  held_row = λ i l d h. cc;
  alone = λ i j l d h g. cc;
  unpushed = λ i l d h. cc;
  once = λ l d. rw e (omega arith);
  recorded = λ l d h. absurd (omega (arith, ap (count (is_key l d)) e));
}
