-- ===== src/Gateway/Dedup/Retry/Attempts.antt =====
-- The attempts and the dead letters of `ExecuteWithRetry` of unica/gateway/internal/dedup/retry.go.
use lurus_unica.Common.{
  ℕ, zero, suc, ◌+◌, ◌≤◌, ◌<◌, Bool, true, false, not, ◌&&◌, Option, none, some, List, [], ◌∷◌,
  ◌++◌, if◌then◌else◌, ℤ, pos_part, arith, ◌≡◌, refl, subst, ap, ◌⊎◌, inl, inr, Bool-cases,
  Option-cases,
}
use lurus_unica.Common.Search.{is_some}
use lurus_unica.Gateway.Dedup.Retry.{
  RetryConfig, new_retryer, backoff_duration, DeadLetter, succeeded, cancelled, exhausted,
  undelivered, Run, give_up, attempt_from, execute_with_retry,
}

moved {ℓ} : (P : ℕ → Type ℓ) (k attempt : ℕ) → P (suc attempt + k) → P (attempt + suc k)
moved P k attempt h = subst P (omega arith) h

here {ℓ} : (P : ℕ → Type ℓ) (attempt : ℕ) → P attempt → P (attempt + 0)
here P attempt h = subst P (omega arith) h

module _ {Message Error : Type 0} (r : RetryConfig) (msg : Message) (process : ℕ → Option Error)
    (cut : ℕ → Bool) (stream_fails : Bool) where
  -- `left` attempts from one fail, and no wait after them is cut short.
  unfoldable pub fail : ℕ → ℕ → Bool
  fail zero attempt = true
  fail (suc left) attempt =
      (is_some (process attempt) && not (cut attempt)) && fail left (suc attempt)

  -- The error of the last attempt.
  unfoldable pub last_error : ℕ → ℕ → Option Error → Option Error
  last_error zero attempt last = last
  last_error (suc left) attempt last = last_error left (suc attempt) (process attempt)

  abbrev pub letter : Option Error → DeadLetter Message Error
  letter last = record {
    original_message = msg;
    failure_reason = last;
    retry_count = r.max_retries;
  }

  abbrev from : ℕ → ℕ → Option Error → List ℤ → List (DeadLetter Message Error) → Run Message Error
  from = attempt_from r msg process cut stream_fails

  -- A run ends in one of three ways: with the first success, with a wait that is cut short, or after all
  -- attempts have failed.
  abbrev pub Ends : ℕ → ℕ → Option Error → Run Message Error → Type 0
  Ends left attempt last q =
      ((k : ℕ) × ((k < left)
          × ((fail k attempt ≡ true)
              × ((process (attempt + k) ≡ none)
                  × ((q.attempts ≡ suc (attempt + k)) × (q.outcome ≡ succeeded))))))
      ⊎ (((k : ℕ) × ((k < left)
              × ((fail k attempt ≡ true)
                  × ((is_some (process (attempt + k)) ≡ true)
                      × ((cut (attempt + k) ≡ true)
                          × ((q.attempts ≡ suc (attempt + k)) × (q.outcome ≡ cancelled)))))))
          ⊎ ((fail left attempt ≡ true)
              × ((q.attempts ≡ attempt + left)
                  × (q.outcome ≡ (
                      if stream_fails
                      then undelivered (last_error left attempt last)
                      else exhausted (last_error left attempt last))))))

  attempt_from-letters :
      (left attempt : ℕ) (last : Option Error) (waits : List ℤ)
      (letters : List (DeadLetter Message Error))
      → (from left attempt last waits letters).letters ≡ (
          if fail left attempt && not stream_fails
          then letters ++ letter (last_error left attempt last) ∷ []
          else letters)
  unfolding attempt_from give_up fail last_error is_some
  attempt_from-letters zero attempt last waits letters = ground arith
  attempt_from-letters (suc left) attempt last waits letters =
      elim (Option-cases (process attempt)) [
        | inl n ↦ ground arith
        | inr (e, s) ↦ elim (Bool-cases (cut attempt)) [
          | inl t ↦ ground arith
          | inr f ↦
              let ih =
                attempt_from-letters left (suc attempt) (some e)
                  (waits ++ backoff_duration r attempt ∷ []) letters in
              ground (arith, ih, ap (last_error left (suc attempt)) s)
        ]
      ]

  later :
      (left attempt : ℕ) (last : Option Error) (e : Error) (q : Run Message Error)
      → process attempt ≡ some e
      → cut attempt ≡ false
      → Ends left (suc attempt) (some e) q
      → Ends (suc left) attempt last q
  unfolding fail last_error is_some
  later left attempt last e q h c (inl (k, (l, (f, (p, (n, o)))))) = inl (
    suc k,
    (ground arith, (ground arith, (moved (λ j. process j ≡ none) k attempt p, (ground arith, o)))),
  )
  later left attempt last e q h c (inr (inl (k, (l, (f, (p, (t, (n, o)))))))) = inr (
      inl (
        suc k,
        (
          ground arith,
          (
            ground arith,
            (
              moved (λ j. is_some (process j) ≡ true) k attempt p,
              (moved (λ j. cut j ≡ true) k attempt t, (ground arith, o)),
            ),
          ),
        ),
      ))
  later left attempt last e q h c (inr (inr (f, (n, o)))) =
      inr (inr (ground arith, (ground arith, ground (arith, ap (last_error left (suc attempt)) h))))

  attempt_from-Ends :
      (left attempt : ℕ) (last : Option Error) (waits : List ℤ)
      (letters : List (DeadLetter Message Error))
      → Ends left attempt last (from left attempt last waits letters)
  unfolding attempt_from give_up fail is_some last_error
  attempt_from-Ends zero attempt last waits letters = inr (inr (refl, (ground arith, ground arith)))
  attempt_from-Ends (suc left) attempt last waits letters = elim (Option-cases (process attempt)) [
    | inl n ↦ inl (
      0,
      (
        ground arith,
        (refl, (here (λ j. process j ≡ none) attempt n, (ground arith, ground arith))),
      ),
    )
    | inr (e, s) ↦ elim (Bool-cases (cut attempt)) [
      | inl t ↦ inr (
          inl (
            0,
            (
              ground arith,
              (
                refl,
                (
                  here (λ j. is_some (process j) ≡ true) attempt (ap is_some s),
                  (here (λ j. cut j ≡ true) attempt t, (ground arith, ground arith)),
                ),
              ),
            ),
          ))
      | inr f ↦
          let waited = waits ++ backoff_duration r attempt ∷ [] in
          subst (Ends (suc left) attempt last) (continued e waited s f) (
            later left attempt last e (from left (suc attempt) (some e) waited letters) s f
              (attempt_from-Ends left (suc attempt) (some e) waited letters))
    ]
  ]
    where
      continued :
          (e : Error) (waited : List ℤ)
          → process attempt ≡ some e
          → cut attempt ≡ false
          → from left (suc attempt) (some e) (waits ++ backoff_duration r attempt ∷ []) letters
            ≡ from (suc left) attempt last waits letters
      continued e waited s f = ground arith

clamped : (cfg : RetryConfig) → 1 ≤ pos_part (new_retryer cfg).max_retries
unfolding new_retryer
clamped cfg = ground arith

module _ {Message Error : Type 0} (cfg : RetryConfig) (msg : Message) (process : ℕ → Option Error)
    (cut : ℕ → Bool) (stream_fails : Bool) where
  -- A retryer makes at least one attempt. Its run ends with the first attempt that succeeds, or with the
  -- first failed attempt whose wait is cut short, or else after the configured number of attempts, with
  -- the last error.
  pub execute_with_retry-Ends :
      (letters : List (DeadLetter Message Error))
      → (1 ≤ pos_part (new_retryer cfg).max_retries)
        × Ends
            (new_retryer cfg)
            msg
            process
            cut
            stream_fails
            (pos_part (new_retryer cfg).max_retries)
            0
            none
            (execute_with_retry (new_retryer cfg) msg process cut stream_fails letters)
  unfolding execute_with_retry
  execute_with_retry-Ends letters = (
    clamped cfg,
    attempt_from-Ends (new_retryer cfg) msg process cut stream_fails
        (pos_part (new_retryer cfg).max_retries) 0 none [] letters,
  )

  -- A run writes one dead letter, with the message, the last error and the number of attempts, if all
  -- attempts fail, no wait is cut short and the stream can be written; and none otherwise.
  pub execute_with_retry-letters :
      (letters : List (DeadLetter Message Error))
      → (execute_with_retry (new_retryer cfg) msg process cut stream_fails letters).letters ≡ (
          if fail
              (new_retryer cfg)
              msg
              process
              cut
              stream_fails
              (pos_part (new_retryer cfg).max_retries)
              0
            && not stream_fails
          then letters
            ++ letter (new_retryer cfg) msg process cut stream_fails (
                last_error
                  (new_retryer cfg)
                  msg
                  process
                  cut
                  stream_fails
                  (pos_part (new_retryer cfg).max_retries)
                  0
                  none)
              ∷ []
          else letters)
  unfolding execute_with_retry
  execute_with_retry-letters letters =
      attempt_from-letters (new_retryer cfg) msg process cut stream_fails
        (pos_part (new_retryer cfg).max_retries) 0 none [] letters
