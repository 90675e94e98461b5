-- ===== src/Router/State.antt =====
-- Conversation state: unica/router/internal/state.
pub mod Machine
pub mod Store
pub mod Manager
pub mod Inbound
mod Tests
