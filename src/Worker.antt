-- ===== src/Worker.antt =====
-- app/worker: the consumer of the queue and the processors of its events.
pub mod Payment
pub mod Webhook
pub mod Publisher
pub mod Consumer
pub mod Dispatcher
