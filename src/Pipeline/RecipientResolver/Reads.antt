-- ===== src/Pipeline/RecipientResolver/Reads.antt =====
-- The resolver only reads: its targets as a function of the job and the database.
use inride_worker_manager.Db.{Db, User}
use inride_worker_manager.Effect.Calm.{calm_respond, exec_calm}
use inride_worker_manager.Domain.{DeliveryJob, DeliveryTarget, Uuid}
use inride_worker_manager.Effect.World.{World, effect}
use inride_worker_manager.Pipeline.RecipientResolver.{
  build_query, find_actor, resolve, resolve_for, resolve_in, targets_of,
}
use inride_worker_manager.Effect.{ok, ◌>>=◌}
use inride_worker_manager.Prelude.{List, Option, [], none, refl, some, ◌≡◌}
use inride_worker_manager.Db.Directory

abbrev pub actor_in : Option Uuid → Db → Option User
actor_in none db = none
actor_in (some id) db = Directory.select_user id db

abbrev pub targets_in : Option Uuid → Option Uuid → Db → List DeliveryTarget
targets_in none exclude db = []
targets_in (some tenant) exclude db =
    targets_of (Directory.select_devices (build_query tenant exclude (actor_in exclude db)) db)

unfoldable pub resolved : DeliveryJob → Db → List DeliveryTarget
resolved job db = targets_in job.tenant_id job.actor_user_id db

resolve_for-reads :
    (tenant exclude : Option Uuid) (w : World)
    → exec_calm (resolve_for tenant exclude) w ≡ (ok (targets_in tenant exclude w.db), w)
unfolding resolve_in find_actor exec_calm calm_respond effect ◌>>=◌
resolve_for-reads none exclude w = refl
resolve_for-reads (some t) none w = refl
resolve_for-reads (some t) (some a) w = refl

pub resolve-reads :
    (job : DeliveryJob) (w : World) → exec_calm (resolve job) w ≡ (ok (resolved job w.db), w)
unfolding resolve resolved
resolve-reads job w = resolve_for-reads job.tenant_id job.actor_user_id w
