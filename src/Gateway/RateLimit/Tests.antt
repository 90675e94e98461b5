-- ===== src/Gateway/RateLimit/Tests.antt =====
-- A channel of two requests a second, and the theorems on it.
use lurus_unica.Common.{ℕ, suc, true, false, none, List, [], ◌∷◌, pos, leb_ℤ, arith, ◌≡◌, refl}
use lurus_unica.Common.Floats.{fixed}
use lurus_unica.Common.Maps.{assoc}
use lurus_unica.Gateway.RateLimit.{
  Config, Keys, Faults, prune, in_cooldown, limit_for, burst_threshold, allow,
}
use lurus_unica.Gateway.RateLimit.Window.{Request, after, allowed_times, kept, allowed_times-le}
use lurus_unica.Gateway.RateLimit.Burst.{IsBurst}

abbrev small : Config ℕ
small = record {
  enabled = true;
  channels = [];
  fallback = record {
    channel = "";
    max_requests = pos 2;
    window = 1000000000;
    burst_multiplier = 100;
    cooldown_sec = pos 30;
  };
}

abbrev calm : ℕ → Faults
calm t = record {
  cooldown_check = false;
  pipeline = false;
  burst_pipeline = false;
  cooldown_set = false;
  burst_now = t;
}

abbrev empty : Keys
empty = record { ratelimit = λ _. []; burst = λ _. []; cooldown = λ _. none }

-- Two requests of which one has left the window of a third.
abbrev before : List Request
before = record { now = 1000; faults = calm 1000 } ∷ record { now = 1500; faults = calm 1500 } ∷ []

third_allowed :
    (allow fixed small (calm 2000) 2000 "shop" (after fixed small "shop" before empty)).1.allowed
    ≡ true
unfolding allow after assoc
third_allowed = refl

allowed_times-le_example :
    leb_ℤ
      (pos (suc (kept fixed small "shop" 2000 (allowed_times fixed small "shop" before empty))))
      (limit_for fixed small "shop").max_requests
    ≡ true
allowed_times-le_example =
    allowed_times-le fixed small "shop" before empty (calm 2000) 2000 refl
      ((omega arith, refl), ((omega arith, refl), tt)) refl third_allowed

-- A channel that has had two requests in the burst window is over a threshold of two.
abbrev busy : Keys
busy = record empty { burst = λ _. 900 ∷ 800 ∷ [] }

busy_burst : IsBurst fixed small "shop" (calm 1000) 1000 busy
unfolding in_cooldown burst_threshold limit_for assoc prune
busy_burst = record {
  enabled = refl;
  counted = refl;
  calm = refl;
  recorded = refl;
  noted = refl;
  over = refl;
}
