-- ===== src/Gateway/Dedup/Seen/Window.antt =====
-- The lifetime of a key of `IsDuplicate` (unica/gateway/internal/dedup/dedup.go).
use lurus_unica.Common.{
  ℕ, ◌+◌, ◌<◌, String, Bool, true, false, some, List, [], ◌∷◌, eq_iff, lt→ltb, ==_iff, arith, ◌≡◌,
  ◌≢◌, ap,
}
use lurus_unica.Common.Maps.{put, put_self}
use lurus_unica.Gateway.Dedup.Seen.{Keys, is_live, expiry, is_duplicate, Arrival, arrive}

-- The arrivals come before a time.
abbrev pub Before : ℕ → List Arrival → Type 0
Before t [] = Unit
Before t (a ∷ more) = (a.time < t) × Before t more

-- A key that is live until `t` is not written by an arrival before `t`.
kept :
    (ttl : ℕ) (b : Bool) (now t : ℕ) (id j : String) (keys : Keys)
    → now < t
    → keys id ≡ some (some t)
    → (is_duplicate ttl b now j keys).0 id ≡ some (some t)
unfolding is_duplicate is_live put
kept ttl b now t id j keys h k = ground (arith, eq_iff id j, lt→ltb now t h, ap keys)

kept_all :
    (ttl t : ℕ) (id : String) (more : List Arrival) (keys : Keys)
    → Before t more
    → keys id ≡ some (some t)
    → arrive ttl more keys id ≡ some (some t)
unfolding arrive
kept_all ttl t id [] keys h k = k
kept_all ttl t id (a ∷ more) keys (b, h) k =
    kept_all ttl t id more (is_duplicate ttl a.redis_fails a.time a.id keys).0 h
      (kept ttl a.redis_fails a.time t id a.id keys b k)

found :
    (ttl later t : ℕ) (id : String) (keys : Keys)
    → id ≢ ""
    → later < t
    → keys id ≡ some (some t)
    → (is_duplicate ttl false later id keys).1 ≡ record { duplicate = true; failed = false }
unfolding is_duplicate is_live
found ttl later t id keys named h k = ground (arith, eq_iff id "", lt→ltb later t h)

written :
    (ttl now : ℕ) (id : String) (keys : Keys)
    → id ≢ ""
    → 0 < ttl
    → (is_duplicate ttl false now id keys).1.duplicate ≡ false
    → (is_duplicate ttl false now id keys).0 id ≡ some (some (now + ttl))
unfolding is_duplicate expiry
written ttl now id keys named positive passed =
    ground (arith, eq_iff id "", ==_iff ttl 0, put_self keys id (some (some (now + ttl))))

-- After a message with an id has passed, one with the same id is a duplicate until the lifetime is over,
-- whatever arrives in between and whether Redis fails for it, if the lifetime is positive and Redis
-- answers for these two.
pub is_duplicate_again :
    (ttl now later : ℕ) (id : String) (more : List Arrival) (keys : Keys)
    → id ≢ ""
    → 0 < ttl
    → (is_duplicate ttl false now id keys).1.duplicate ≡ false
    → Before (now + ttl) more
    → later < now + ttl
    → (is_duplicate ttl false later id (arrive ttl more (is_duplicate ttl false now id keys).0)).1
      ≡ record { duplicate = true; failed = false }
is_duplicate_again ttl now later id more keys named positive passed before h =
    found ttl later (now + ttl) id (arrive ttl more (is_duplicate ttl false now id keys).0) named h
      (kept_all ttl (now + ttl) id more (is_duplicate ttl false now id keys).0 before
        (written ttl now id keys named positive passed))
