-- ===== src/System.antt =====
-- All processes of the service together: API servers, relays, workers and reconciliations over one
-- database, and the broker between the relays and the workers (docker-compose.yml).
pub mod Broker
pub mod Step
pub mod Known
pub mod Accounted
pub mod Transactions
pub mod Own
pub mod Messages
pub mod Settled
pub mod Invariant
pub mod Lossless
pub mod Processable
