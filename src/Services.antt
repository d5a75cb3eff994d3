-- ===== src/Services.antt =====
-- app/services: creating and reading payments, the outbox relay and the reconciliation worker.
pub mod Create
pub mod Relay
pub mod Reconciliation
