-- ===== src/Clients.antt =====
-- app/clients: the HTTP clients of the payment provider and of the webhook targets.
pub mod Provider
pub mod Webhook
