-- ===== src/Router/Routing/Lock/Waiting.antt =====
-- The loop of `Acquire` of unica/router/internal/routing/lock.go ends.
use lurus_unica.Common.{
  ℕ, ◌+◌, ◌*◌, ◌≤◌, ◌<◌, String, false, Option, List, [], ◌∷◌, ltb, arith, ◌≡◌, ◌≢◌, inl, inr,
  Bool-cases, length,
}
use lurus_unica.Router.Routing.Lock.{
  Held, Round, waiting, conv_lock_retry_delay, conv_lock_wait, acquire,
}

-- Each round reads the clock no earlier than the delay asks for: round `i` no earlier than
-- `start + i * delay`.
unfoldable pub IsPaced : ℕ → List Round → Type 0
IsPaced at [] = 0 < 1
IsPaced at (r ∷ rs) = (at ≤ r.checked) × IsPaced (at + conv_lock_retry_delay) rs

not_over : (deadline now : ℕ) → ltb deadline now ≡ false → now ≤ deadline
not_over deadline now h = ground arith

ends :
    (deadline : ℕ) (token : String) (rs : List Round) (at : ℕ) (key : Option Held)
    → IsPaced at rs
    → at ≤ deadline + conv_lock_retry_delay
    → deadline + conv_lock_retry_delay < at + conv_lock_retry_delay * length rs
    → (acquire deadline token rs key).1 ≢ waiting
unfolding acquire IsPaced
ends deadline token [] at key p m l = omega arith
ends deadline token (r ∷ rs) at key (q, p) m l = elim (Bool-cases (ltb deadline r.checked)) [
  | inl t ↦ ground arith
  | inr f ↦
      let c : r.checked ≤ deadline = not_over deadline r.checked f in
      let rest =
        ends deadline token rs (at + conv_lock_retry_delay) (r.meanwhile key) p (omega arith)
          (omega arith) in
      λ h. ground arith
]

-- With rounds that are at least the delay apart, `Acquire` returns within 302 rounds, whatever Redis
-- answers and the other workers do.
pub acquire-Ends :
    (start : ℕ) (token : String) (rs : List Round) (key : Option Held)
    → IsPaced start rs
    → 302 ≤ length rs
    → (acquire (start + conv_lock_wait) token rs key).1 ≢ waiting
acquire-Ends start token rs key p l =
    ends (start + conv_lock_wait) token rs start key p (omega arith) (omega arith)
