-- ===== src/Router/Guardrail.antt =====
-- The guardrail between the model's answer and the customer: unica/router/internal/guardrail, and
-- its settings in unica/pkg/guardrail.
pub mod Settings
pub mod Evaluator
mod Tests
