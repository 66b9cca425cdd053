-- ===== src/Db.antt =====
-- app/db/models.py: the four tables, each a list of rows in the order of insertion, and the clock
-- of the database server in microseconds. `fresh_id` stands for `uuid4()`: it gives a new id each
-- time. `datetime.utcnow()` of the worker is the server's clock here.
pub mod Notifications
pub mod Deliveries
pub mod Postgres
pub mod Session
pub mod Directory
use inride_worker_manager.Prelude.{ℤ, ℕ, String, Bool, Option, List}
use inride_worker_manager.Domain.{Uuid}

pub record Notification : Type 0 where
  pub id : Uuid
  pub type : String
  pub user_id : Option Uuid
  pub email_log_id : Option Uuid
  pub sms_log_id : Option ℕ
  pub tenant_id : Option Uuid
  pub from_ : Option String
  pub to : Option String
  pub thread_id : Option String
  pub preview_text : Option String
  pub preview_title : Option String
  pub platform : Option String
  pub is_read : Option Bool
  pub push_status : String
  pub push_error : Option String
  pub created_at : Option ℕ
  pub updated_at : Option ℕ

pub record User : Type 0 where
  pub id : Uuid
  pub tenant_id : Option Uuid
  pub scope_tenant_id : Option Uuid
  pub role : String
  pub is_disabled : Option Bool
  pub is_notify_mobile : Option Bool
  pub notification_priority : ℤ

pub record DeviceToken : Type 0 where
  pub id : Uuid
  pub user_id : Uuid
  pub token : String
  pub is_active : Option Bool
  pub created_at : Option ℕ

pub record Delivery : Type 0 where
  pub id : Uuid
  pub notification_id : Uuid
  pub device_token_id : Uuid
  pub status : String
  pub created_at : Option ℕ
  pub updated_at : Option ℕ

pub record Db : Type 0 where
  pub notifications : List Notification
  pub users : List User
  pub device_tokens : List DeviceToken
  pub deliveries : List Delivery
  pub now : ℕ
  pub fresh_id : Uuid
