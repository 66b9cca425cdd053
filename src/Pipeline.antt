-- ===== src/Pipeline.antt =====
-- app/pipeline: the parts of a delivery, and the runner that composes them.
pub mod Previews
pub mod Payloads
pub mod Claimer
pub mod DeviceIdempotency
pub mod Finalizer
pub mod RecipientResolver
pub mod ExpoSender
pub mod Runner
pub mod Operations
