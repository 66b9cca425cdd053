-- ===== src/Core.antt =====
-- app/core/config.py: the settings that the runner and the two ingresses read, with arbitrary
-- values; Core/Settings reads all settings from the environment. `sdk_available` says whether the
-- import of exponent_server_sdk succeeded.
pub mod Env
pub mod Secrets
pub mod Settings
use inride_worker_manager.Prelude.{ℤ, String, Bool}

pub record Config : Type 0 where
  pub expo_access_token_key : String
  pub sdk_available : Bool
  pub batch_size : ℤ
  pub reclaim_after_seconds : ℤ
  pub pubsub_max_delivery_attempts : ℤ
  pub pubsub_ack_extension_seconds : ℤ
