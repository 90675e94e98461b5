-- ===== src/Gateway/Dedup/Retry/Tests.antt =====
-- Runs of a message that fails twice, and of one that always fails.
use lurus_unica.Common.{
  ℕ, ◌≤◌, Bool, false, Option, none, some, [], ◌∷◌, ltb, if◌then◌else◌, pos, pos_part, ◌*ℤ◌, wrap64,
  ◌≡◌, refl,
}
use lurus_unica.Gateway.Dedup.Retry.{
  default_retry_config, new_retryer, succeeded, execute_with_retry,
}
use lurus_unica.Gateway.Dedup.Retry.Attempts.{Ends, execute_with_retry-Ends}

-- An error is the number of its attempt.
abbrev always : ℕ → Option ℕ
always k = some k

abbrev twice : ℕ → Option ℕ
twice k = if ltb k 2 then some k else none

abbrev never : ℕ → Bool
never _ = false

third_attempt :
    execute_with_retry {Message = ℕ} default_retry_config 9 twice never false [] ≡ record {
      attempts = 3;
      waits = pos 1000000000 ∷ pos 2000000000 ∷ [];
      letters = [];
      outcome = succeeded;
    }
unfolding execute_with_retry wrap64 ◌*ℤ◌
third_attempt = refl

execute_with_retry-Ends_example :
    (1 ≤ pos_part (new_retryer default_retry_config).max_retries)
    × Ends {Message = ℕ}
        (new_retryer default_retry_config)
        9
        twice
        never
        false
        (pos_part (new_retryer default_retry_config).max_retries)
        0
        none
        (execute_with_retry (new_retryer default_retry_config) 9 twice never false [])
execute_with_retry-Ends_example =
    execute_with_retry-Ends default_retry_config 9 twice never false []
