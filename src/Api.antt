-- ===== src/Api.antt =====
-- app/api: the HTTP endpoints.
pub mod Text
pub mod Answer
pub mod Payments
pub mod Health
pub mod Middleware
pub mod Access
pub mod RoundTrip
pub mod Application
