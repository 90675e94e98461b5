-- ===== src/Router/Routing/Lock/Tests.antt =====
-- Two workers and one lock, and the theorems on them at concrete inputs.
use lurus_unica.Common.{
  ℕ, zero, suc, ◌+◌, ◌≤◌, String, true, false, Option, none, some, List, [], ◌∷◌, arith, ◌≡◌, ◌≢◌,
  refl, length, eq_iff,
}
use lurus_unica.Router.Routing.Lock.{
  Held, Round, waiting, conv_lock_ttl, conv_lock_wait, conv_lock_retry_delay, set_nx, release,
  acquire,
}
use lurus_unica.Router.Routing.Lock.Exclusive.{
  Step, tried, released, run, AreOthers, IsOther, set_nx-run,
}
use lurus_unica.Router.Routing.Lock.Waiting.{IsPaced, acquire-Ends}

abbrev others : List Step
others = tried 1_200 "b" ∷ released 2_000 "b" ∷ tried 60_999 "c" ∷ []

taken : (set_nx 1_000 "a" none).1 ≡ true
unfolding set_nx
taken = refl

two_tokens : ◌≢◌ {A = String} "a" "b"
two_tokens p = ground (arith, eq_iff "a" "b")

apart : AreOthers "a" 61_000 others
unfolding AreOthers IsOther
apart = (omega arith, ((omega arith, two_tokens), (omega arith, omega arith)))

set_nx-run_example :
    run others (set_nx 1_000 "a" none).0
    ≡ (some (record { token = "a"; expires = 1_000 + conv_lock_ttl }), false)
set_nx-run_example = set_nx-run 1_000 "a" none others taken apart

-- A release by the holder lets the next attempt in.
released_taken : (set_nx 3_000 "b" (release 2_000 "a" (set_nx 1_000 "a" none).0)).1 ≡ true
unfolding set_nx release
released_taken = refl

-- Rounds that find the key held, and read the clock every 100 milliseconds.
abbrev round : ℕ → Round
round at = record {
  now = at;
  fails = false;
  checked = at;
  done = false;
  meanwhile = λ k. some (record { token = "b"; expires = at + 60_000 });
}

unfoldable rounds : ℕ → ℕ → List Round
rounds at zero = []
rounds at (suc n) = round at ∷ rounds (at + conv_lock_retry_delay) n

paced : (at n : ℕ) → IsPaced at (rounds at n)
unfolding IsPaced rounds
paced at zero = omega arith
paced at (suc n) = (omega arith, paced (at + conv_lock_retry_delay) n)

length-rounds : (at n : ℕ) → n ≤ length (rounds at n)
unfolding rounds
length-rounds at zero = omega arith
length-rounds at (suc n) = omega (arith, length-rounds (at + conv_lock_retry_delay) n)

abbrev busy : Option Held
busy = some (record { token = "b"; expires = 90_000 })

acquire-Ends_example : (acquire (5_000 + conv_lock_wait) "a" (rounds 5_000 302) busy).1 ≢ waiting
acquire-Ends_example =
    acquire-Ends 5_000 "a" (rounds 5_000 302) busy (paced 5_000 302) (length-rounds 5_000 302)
