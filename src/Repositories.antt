-- ===== src/Repositories.antt =====
-- app/repositories: the statements on the two tables, and the constraints that the tables declare, and the
-- session in which a transaction stands.
pub mod Payments
pub mod Outbox
pub mod Session
