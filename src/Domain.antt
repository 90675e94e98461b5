-- ===== src/Domain.antt =====
-- The policy packages: pkg/domain.
pub mod Breaker
pub mod Text
pub mod Escalation
pub mod Violation
pub mod Claims
pub mod Config
pub mod Affirm
pub mod Ontology
pub mod Validator
