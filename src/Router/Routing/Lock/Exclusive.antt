-- ===== src/Router/Routing/Lock/Exclusive.antt =====
-- Mutual exclusion by the lock of unica/router/internal/routing/lock.go.
use lurus_unica.Common.{
  ℕ, ◌+◌, ◌<◌, String, Bool, true, false, ◌||◌, Option, some, List, [], ◌∷◌, eq_iff, lt→ltb, arith,
  ◌≡◌, ◌≢◌, refl,
}
use lurus_unica.Router.Routing.Lock.{Held, conv_lock_ttl, live, set_nx, release}

-- What workers do to the key: an attempt with a fresh token, or a release.
pub data Step : Type 0 where
  tried released : ℕ → String → Step

unfoldable pub apply : Step → Option Held → Option Held × Bool
unfolding set_nx release
apply (tried now token) key = set_nx now token key
apply (released now token) key = (release now token key, false)

-- The key after the steps, and whether an attempt among them succeeded.
unfoldable pub run : List Step → Option Held → Option Held × Bool
unfolding apply
run [] key = (key, false)
run (s ∷ ss) key = let rest = run ss (apply s key).0 in (rest.0, (apply s key).1 || rest.1)

-- A step of another worker, before a time.
unfoldable pub IsOther : String → ℕ → Step → Type 0
IsOther token until (tried now t) = now < until
IsOther token until (released now t) = (now < until) × (token ≢ t)

unfoldable pub AreOthers : String → ℕ → List Step → Type 0
unfolding IsOther
AreOthers token until [] = 0 < 1
AreOthers token until (s ∷ ss) = IsOther token until s × AreOthers token until ss

apply_held :
    (h : Held) (s : Step) → IsOther h.token h.expires s → apply s (some h) ≡ (some h, false)
unfolding IsOther apply set_nx release live
apply_held h (tried now t) l = ground (arith, lt→ltb now h.expires l)
apply_held h (released now t) (l, ne) = ground (arith, lt→ltb now h.expires l, eq_iff h.token t)

held_run :
    (h : Held) (ss : List Step) → AreOthers h.token h.expires ss → run ss (some h) ≡ (some h, false)
unfolding AreOthers run
held_run h [] o = refl
held_run h (s ∷ ss) (o, os) = ground (arith, apply_held h s o, held_run h ss os)

-- From the attempt that takes the lock until its time to live has passed, whatever others try and
-- release in any order, no attempt succeeds and the key stays the holder's.
pub set_nx-run :
    (now : ℕ) (token : String) (key : Option Held) (ss : List Step)
    → (set_nx now token key).1 ≡ true
    → AreOthers token (now + conv_lock_ttl) ss
    → run ss (set_nx now token key).0
      ≡ (some (record { token = token; expires = now + conv_lock_ttl }), false)
unfolding set_nx
set_nx-run now token key ss h o =
    ground (arith, held_run (record { token = token; expires = now + conv_lock_ttl }) ss o)
