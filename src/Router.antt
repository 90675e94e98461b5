-- ===== src/Router.antt =====
-- The router service: unica/router/internal.
pub mod State
pub mod Intent
pub mod Guardrail
pub mod Harm
pub mod Scheduling
pub mod Marketing
pub mod Confidence
pub mod Judge
pub mod Routing
pub mod Survey
