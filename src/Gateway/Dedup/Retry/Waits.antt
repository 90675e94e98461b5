-- ===== src/Gateway/Dedup/Retry/Waits.antt =====
-- The exponential backoff of unica/gateway/internal/dedup/retry.go.
use lurus_unica.Common.{
  ℕ, zero, suc, ◌+◌, ◌*◌, ◌^◌, ◌≤◌, ◌<◌, Bool, Option, none, some, List, [], ◌∷◌, ◌++◌, length,
  length-append, ℤ, pos, pos_part, ◌*ℤ◌, wrap64, wrap64_small, arith, ◌≡◌, refl, subst, ◌∙◌, ap,
  inl, inr, Bool-cases, Option-cases,
}
use native.Mathlib.Nat.{pow-le-pow_right, mul-le-mul_left}
use lurus_unica.Gateway.Dedup.Retry.{
  RetryConfig, backoff_duration, DeadLetter, give_up, attempt_from, execute_with_retry,
}

-- The waits together.
unfoldable pub total : List ℤ → ℕ
total [] = 0
total (w ∷ ws) = pos_part w + total ws

total_append : (ws : List ℤ) (w : ℤ) → total (ws ++ w ∷ []) ≡ total ws + pos_part w
unfolding total
total_append [] w = omega arith
total_append (v ∷ ws) w = ground (arith, total_append ws w)

one_longer : (ws : List ℤ) (w : ℤ) → length (ws ++ w ∷ []) ≡ suc (length ws)
one_longer ws w = ground (arith, length-append ws (w ∷ []))

pow_suc : (b n : ℕ) → b * 2 ^ suc n ≡ b * 2 ^ n + b * 2 ^ n
pow_suc b n = grind arith

pow_le : (n m : ℕ) → n ≤ m → 2 ^ n ≤ 2 ^ m
pow_le n m h = pow-le-pow_right {n = 2} (omega arith) h

power_fits : (b n : ℕ) → 0 < b → 2 ^ n ≤ b * 2 ^ n
power_fits b n h = grind arith

scaled : (b n m : ℕ) → n ≤ m → b * 2 ^ n ≤ b * 2 ^ m
scaled b n m h = mul-le-mul_left b (pow_le n m h)

times : (b c : ℕ) → pos b *ℤ pos c ≡ pos (b * c)
unfolding ◌*ℤ◌
times b c = ground arith

-- No wait overflows while the base times the power fits.
backoff_duration_lem :
    (r : RetryConfig) (b n : ℕ)
    → r.backoff_base ≡ pos b
    → 0 < b
    → b * 2 ^ n < 2 ^ 63
    → backoff_duration r n ≡ pos (b * 2 ^ n)
unfolding backoff_duration
backoff_duration_lem r b n e p h =
    let small : 2 ^ n < 2 ^ 63 = ground (arith, power_fits b n p) in
    ap (λ z. wrap64 (z *ℤ wrap64 (pos (2 ^ n)))) e
    ∙ ap (λ z. wrap64 (pos b *ℤ z)) (wrap64_small (2 ^ n) small)
    ∙ ap wrap64 (times b (2 ^ n))
    ∙ wrap64_small (b * 2 ^ n) h

module _ {Message Error : Type 0} (r : RetryConfig) (msg : Message) (process : ℕ → Option Error)
    (cut : ℕ → Bool) (stream_fails : Bool) (b : ℕ) (base : r.backoff_base ≡ pos b)
    (positive : 0 < b) where
  -- The waits add up to the base times a power less the base, and there is one per failed attempt.
  abbrev Doubles : ℕ → List ℤ → Type 0
  Doubles n ws = (length ws ≡ n) × (total ws + b ≡ b * 2 ^ n)

  Doubles-more :
      (n : ℕ) (ws : List ℤ)
      → b * 2 ^ n < 2 ^ 63
      → Doubles n ws
      → Doubles (suc n) (ws ++ backoff_duration r n ∷ [])
  Doubles-more n ws h (l, t) = (
    one_longer ws (backoff_duration r n) ∙ ap suc l,
    ap (λ z. z + b) (total_append ws (backoff_duration r n))
        ∙ ground (arith, pow_suc b n, ap pos_part (backoff_duration_lem r b n base positive h)),
  )

  attempt_from-Doubles :
      (left attempt : ℕ) (last : Option Error) (waits : List ℤ)
      (letters : List (DeadLetter Message Error))
      → b * 2 ^ (attempt + left) < 2 ^ 63
      → Doubles attempt waits
      → (n : ℕ) × ((n ≤ attempt + left)
          × Doubles n
              (attempt_from r msg process cut stream_fails left attempt last waits letters).waits)
  unfolding attempt_from give_up
  attempt_from-Doubles zero attempt last waits letters h d = elim (Bool-cases stream_fails) [
    | inl t ↦ (attempt, (omega arith, subst (Doubles attempt) (ground arith) d))
    | inr f ↦ (attempt, (omega arith, subst (Doubles attempt) (ground arith) d))
  ]
  attempt_from-Doubles (suc left) attempt last waits letters h d =
      let waited = waits ++ backoff_duration r attempt ∷ [] in
      let fits : b * 2 ^ attempt < 2 ^ 63 =
        ground (arith, scaled b attempt (attempt + suc left) (omega arith)) in
      let more : Doubles (suc attempt) waited = Doubles-more attempt waits fits d in
      elim (Option-cases (process attempt)) [
        | inl n ↦ (attempt, (omega arith, subst (Doubles attempt) (ground arith) d))
        | inr (e, s) ↦ elim (Bool-cases (cut attempt)) [
          | inl t ↦ (suc attempt, (omega arith, subst (Doubles (suc attempt)) (ground arith) more))
          | inr f ↦
              let (n, (l, q)) =
                attempt_from-Doubles left (suc attempt) (some e) waited letters
                  (subst (λ z. b * 2 ^ z < 2 ^ 63) (omega arith) h) more in
              (n, (ground arith, subst (Doubles n) (ground arith) q))
        ]
      ]

  -- A run begins at most as many waits as it is given attempts. If the base is positive, and the base
  -- times two to the number of attempts is below 2 ^ 63, then none of the waits overflows, and they add
  -- up to the base times a power of two less the base, where the exponent is the number of waits.
  pub execute_with_retry-Doubles :
      (letters : List (DeadLetter Message Error))
      → b * 2 ^ pos_part r.max_retries < 2 ^ 63
      → (n : ℕ) × ((n ≤ pos_part r.max_retries)
          × ((length (execute_with_retry r msg process cut stream_fails letters).waits ≡ n)
              × (total (execute_with_retry r msg process cut stream_fails letters).waits + b
                  ≡ b * 2 ^ n)))
  unfolding execute_with_retry total
  execute_with_retry-Doubles letters h =
      let (n, (l, d)) =
        attempt_from-Doubles (pos_part r.max_retries) 0 none [] letters
          (subst (λ z. b * 2 ^ z < 2 ^ 63) (omega arith) h) (refl, ground arith) in
      (n, (omega arith, d))
