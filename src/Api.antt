-- ===== src/Api.antt =====
-- api/internal/api: the HTTP surface of the control plane.
pub mod RateLimit
pub mod Router
pub mod Sessions
pub mod Accounts
pub mod Devices
pub mod Payments
