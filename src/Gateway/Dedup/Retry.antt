-- ===== src/Gateway/Dedup/Retry.antt =====
-- unica/gateway/internal/dedup/retry.go, and `SendToDeadLetter` of deadletter.go. The processing of a
-- message, the choice between the timer and the cancelled context, and the stream of dead letters
-- are given from outside: what an attempt returns, whether the wait after it is cut short, and
-- whether the stream can be written.
pub mod Attempts
pub mod Waits
mod Tests
use lurus_unica.Common.{
  ℕ, zero, suc, ◌+◌, ◌^◌, String, Bool, true, false, not, Option, none, some, List, [], ◌∷◌, ◌++◌,
  if◌then◌else◌, ℤ, pos, pos_part, ltb_ℤ, ◌*ℤ◌, wrap64,
}

pub record RetryConfig : Type 0 where
  pub max_retries : ℤ
  pub backoff_base : ℤ

-- A second is 10 ^ 9 nanoseconds.
abbrev pub default_retry_config : RetryConfig
default_retry_config = record { max_retries = pos 3; backoff_base = pos 1000000000 }

unfoldable pub new_retryer : RetryConfig → RetryConfig
new_retryer cfg = if ltb_ℤ cfg.max_retries (pos 1) then record cfg { max_retries = pos 1 } else cfg

-- `1 << uint(attempt)` is a 64-bit number too.
unfoldable pub backoff_duration : RetryConfig → ℕ → ℤ
backoff_duration r attempt = wrap64 (r.backoff_base *ℤ wrap64 (pos (2 ^ attempt)))

-- An entry of the dead-letter stream: the message, the last error and the number of attempts.
pub record DeadLetter (Message Error : Type 0) : Type 0 where
  pub original_message : Message
  pub failure_reason : Option Error
  pub retry_count : ℤ

pub data Outcome (Error : Type 0) : Type 0 where
  succeeded : Outcome Error
  cancelled : Outcome Error
  exhausted : Option Error → Outcome Error
  undelivered : Option Error → Outcome Error

-- What a call leaves: the attempts made, the waits begun, the stream and the outcome.
pub record Run (Message Error : Type 0) : Type 0 where
  pub attempts : ℕ
  pub waits : List ℤ
  pub letters : List (DeadLetter Message Error)
  pub outcome : Outcome Error

module _ {Message Error : Type 0} (r : RetryConfig) (msg : Message) (process : ℕ → Option Error)
    (cut : ℕ → Bool) (stream_fails : Bool) where
  -- After the loop.
  unfoldable pub give_up :
      ℕ → Option Error → List ℤ → List (DeadLetter Message Error) → Run Message Error
  give_up attempt last waits letters =
      if stream_fails
      then record {
        attempts = attempt;
        waits = waits;
        letters = letters;
        outcome = undelivered last;
      }
      else record {
        attempts = attempt;
        waits = waits;
        letters =
            letters
            ++ record { original_message = msg; failure_reason = last; retry_count = r.max_retries }
              ∷ [];
        outcome = exhausted last;
      }

  -- The loop, with the number of attempts that are left.
  unfoldable pub attempt_from :
      ℕ → ℕ → Option Error → List ℤ → List (DeadLetter Message Error) → Run Message Error
  unfolding give_up backoff_duration
  attempt_from zero attempt last waits letters = give_up attempt last waits letters
  attempt_from (suc left) attempt last waits letters = elim (process attempt) [
    | none ↦ record {
      attempts = suc attempt;
      waits = waits;
      letters = letters;
      outcome = succeeded;
    }
    | some e ↦
        let waited = waits ++ backoff_duration r attempt ∷ [] in
        let rest = attempt_from left (suc attempt) (some e) waited letters in
        if cut attempt
        then record {
          attempts = suc attempt;
          waits = waited;
          letters = letters;
          outcome = cancelled;
        }
        else rest
  ]

  unfoldable pub execute_with_retry : List (DeadLetter Message Error) → Run Message Error
  unfolding attempt_from
  execute_with_retry letters = attempt_from (pos_part r.max_retries) 0 none [] letters
