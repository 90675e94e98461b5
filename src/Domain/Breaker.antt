-- ===== src/Domain/Breaker.antt =====
-- unica/pkg/domain/breaker.go: the circuit breaker that switches enforcement off for a product line
-- when too many of its recent answers would have been suppressed. Every method holds the mutex, so a
-- call is one step. `b.now()` is read twice by `Allow`, and each reading is an argument. A time is a
-- signed number of nanoseconds, and `time.Time{}` is 0.
mod Lines
pub mod Ring
pub mod Window
pub mod Decision
pub mod Trips
pub mod Runs
mod Tests
pub use Lines.{BreakerConfig, BreakerLine, Breaker}
unfoldable pub use Lines.{
  default_config, normalise, cooldown, fresh_line, rate, reset, line_for, allow_line, record_line,
  new_breaker, allow, record_outcome, is_open,
}
