-- ===== src/Sync.antt =====
-- What reaches the cloud, app/sync/, and the queue that it is sent from.
pub mod Backoff
pub mod Outbox
pub mod Pusher
pub mod Engine
