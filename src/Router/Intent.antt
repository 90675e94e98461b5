-- ===== src/Router/Intent.antt =====
-- Intent classification before the model is called: unica/router/internal/intent.
pub mod Markers
pub mod Classifier
pub mod Stage
mod Tests
