-- ===== src/Tests.antt =====
-- Runs of the model at concrete inputs, and the theorems at inputs where their hypotheses hold.
mod Samples
mod Agreement
mod Api
mod Breaker
mod Clients
mod Flow
mod Migrations
mod MockProvider
mod Reconciliation
mod Services
mod Startup
mod System
mod Worker
