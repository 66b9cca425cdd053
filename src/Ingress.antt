-- ===== src/Ingress.antt =====
-- app/ingress: the ways in which work reaches the runner, and the recovery of stuck notifications.
pub mod Settling
pub mod Progress
pub mod Draining
pub mod Finishing
pub mod Polling
pub mod Recovery
pub mod Answers
pub mod Reclaim
pub mod Concurrency
pub mod PendingPoller
pub mod PollerTask
pub mod Payload
pub mod PubsubSubscriber
pub mod StreamingPull
pub mod Operations
pub mod Statuses
pub mod Handled
pub mod Acks
