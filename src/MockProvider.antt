-- ===== src/MockProvider.antt =====
-- mock-provider/app: the provider that the end-to-end tests run against.
pub mod Locks
pub mod Payments
pub mod Webhooks
pub mod Step
pub mod Guard
pub mod Contract
