-- ===== src/Db/Directory/Laws.antt =====
-- What a deactivation does to the devices.
use inride_worker_manager.Db.Directory.{deactivated}
use inride_worker_manager.Db.{DeviceToken}
use inride_worker_manager.Prelude.{any, ap, update_where, List, [], ◌∷◌, ◌≡◌, refl}

-- a deactivation of no device changes none
pub deactivated-nil : (ds : List DeviceToken) → deactivated [] ds ≡ ds
unfolding update_where any
deactivated-nil [] = refl
deactivated-nil (d ∷ ds) = ap (λ rest. d ∷ rest) (deactivated-nil ds)
