-- ===== src/Gateway/RateLimit/Window.antt =====
-- The sliding window of `Allow` of unica/gateway/internal/ratelimit/limiter.go.
use lurus_unica.Common.{
  ℕ, suc, ◌+◌, ◌/◌, ◌≤◌, String, Bool, true, false, not, ◌&&◌, List, [], ◌∷◌, eq_iff, leb, leb→le,
  le→leb, if◌then◌else◌, length, ℤ, pos, ltb_ℤ, leb_ℤ, arith, ◌≡◌, refl, sym, ◌∙◌, ap, ◌⊎◌, inl,
  inr, Bool-cases,
}
use lurus_unica.Common.Floats.{Floats}
use lurus_unica.Gateway.RateLimit.{
  ChannelLimit, Config, Keys, Result, Faults, nanos_per_milli, at, prune, in_cooldown, limit_for,
  record_and_check, count_request, allow,
}

at_self : (m : String → List ℕ) (k : String) (v : List ℕ) → at m k v k ≡ v
unfolding at
at_self m k v = ground (arith, eq_iff k k)

-- What is pruned at a time stays pruned later.
prune-prune :
    (w now later : ℕ) (ts : List ℕ)
    → now ≤ later
    → prune w later (prune w now ts) ≡ prune w later ts
unfolding prune
prune-prune w now later [] h = refl
prune-prune w now later (t ∷ ts) h = elim (Bool-cases (leb (t + w) now)) [
  | inl p ↦ ground (arith, prune-prune w now later ts h, leb→le (t + w) now, le→leb (t + w) later)
  | inr n ↦ ground (arith, prune-prune w now later ts h)
]

length-prune-le : (w now : ℕ) (ts : List ℕ) → length (prune w now ts) ≤ length ts
unfolding prune
length-prune-le w now [] = omega arith
length-prune-le w now (t ∷ ts) = ground (arith, length-prune-le w now ts)

-- A request: its time and what fails.
pub record Request : Type 0 where
  pub now : ℕ
  pub faults : Faults

module _ (fl : Floats) (c : Config fl.Float) (channel : String) where
  abbrev pub window_ms : ℕ
  window_ms = (limit_for fl c channel).window / nanos_per_milli

  -- The keys after the requests, and the times of those that were allowed.
  unfoldable pub after : List Request → Keys → Keys
  after [] k = k
  after (r ∷ more) k = after more (allow fl c r.faults r.now channel k).0

  unfoldable pub allowed_times : List Request → Keys → List ℕ
  allowed_times [] k = []
  allowed_times (r ∷ more) k =
      let rest = allowed_times more (allow fl c r.faults r.now channel k).0 in
      if (allow fl c r.faults r.now channel k).1.allowed then r.now ∷ rest else rest

  -- The requests come no later than a time, and the pipeline fails for none.
  abbrev pub AreCounted : ℕ → List Request → Type 0
  AreCounted later [] = Unit
  AreCounted later (r ∷ more) =
      ((r.now ≤ later) × (r.faults.pipeline ≡ false)) × AreCounted later more

  burst-ratelimit :
      (f : Faults) (cl : ChannelLimit fl.Float) (k : Keys)
      → (record_and_check fl f channel cl k).ratelimit ≡ k.ratelimit
  unfolding record_and_check
  burst-ratelimit f cl k = ground arith

  -- The set of a request that is counted.
  unfoldable pub counted_set : ℕ → ChannelLimit fl.Float → Keys → List ℕ
  counted_set now cl k = now ∷ prune (cl.window / nanos_per_milli) now (k.ratelimit channel)

  pub counted_keys :
      (f : Faults) (now : ℕ) (cl : ChannelLimit fl.Float) (k : Keys)
      → f.pipeline ≡ false
      → (count_request fl f now channel cl k).0
        ≡ record_and_check fl f channel cl
            (record k { ratelimit = at k.ratelimit channel (counted_set now cl k) })
  unfolding count_request counted_set
  counted_keys f now cl k h = ground arith

  counted_ratelimit :
      (f : Faults) (now : ℕ) (cl : ChannelLimit fl.Float) (k : Keys)
      → f.pipeline ≡ false
      → (count_request fl f now channel cl k).0.ratelimit channel ≡ counted_set now cl k
  counted_ratelimit f now cl k h =
      let marked = record k { ratelimit = at k.ratelimit channel (counted_set now cl k) } in
      ap (λ (q : Keys). q.ratelimit channel) (counted_keys f now cl k h)
      ∙ ap (λ (m : String → List ℕ). m channel) (burst-ratelimit f cl marked)
      ∙ at_self k.ratelimit channel (counted_set now cl k)

  counted_allowed :
      (f : Faults) (now : ℕ) (cl : ChannelLimit fl.Float) (k : Keys)
      → f.pipeline ≡ false
      → (count_request fl f now channel cl k).1.allowed
        ≡ not (ltb_ℤ cl.max_requests (pos (length (counted_set now cl k))))
  unfolding count_request counted_set
  counted_allowed f now cl k h = ground arith

  -- A step is a rejection that leaves the keys, or the request is counted.
  pub allow_step :
      (f : Faults) (now : ℕ) (k : Keys)
      → c.enabled ≡ true
      → f.pipeline ≡ false
      → (((allow fl c f now channel k).1.allowed ≡ false)
          × ((allow fl c f now channel k).0.ratelimit channel ≡ k.ratelimit channel))
        ⊎ (((allow fl c f now channel k).1.allowed
              ≡ not (
                  ltb_ℤ
                    (limit_for fl c channel).max_requests
                    (pos (length (counted_set now (limit_for fl c channel) k)))))
            × ((allow fl c f now channel k).0.ratelimit channel
                ≡ counted_set now (limit_for fl c channel) k))
  unfolding allow
  allow_step f now k on ok =
      elim (Bool-cases (not f.cooldown_check && in_cooldown now (k.cooldown channel))) [
        | inl t ↦ inl (ground arith, ground arith)
        | inr n ↦ inr (
          ap (λ (q : Keys × Result). q.1.allowed) (through n)
              ∙ counted_allowed f now (limit_for fl c channel) k ok,
          ap (λ (q : Keys × Result). q.0.ratelimit channel) (through n)
              ∙ counted_ratelimit f now (limit_for fl c channel) k ok,
        )
      ]
    where
      through :
          (not f.cooldown_check && in_cooldown now (k.cooldown channel)) ≡ false
          → allow fl c f now channel k ≡ count_request fl f now channel (limit_for fl c channel) k
      through n = ground arith

  -- How many of the times are in the window at a later time.
  unfoldable pub kept : ℕ → List ℕ → ℕ
  kept later ts = length (prune window_ms later ts)

  step_kept :
      (f : Faults) (now later : ℕ) (k : Keys)
      → c.enabled ≡ true
      → f.pipeline ≡ false
      → now ≤ later
      → kept later (if (allow fl c f now channel k).1.allowed then now ∷ [] else [])
          + kept later (k.ratelimit channel)
        ≤ kept later ((allow fl c f now channel k).0.ratelimit channel)
  unfolding kept counted_set prune
  step_kept f now later k on ok h = elim (allow_step f now k on ok) [
    | inl (n, s) ↦ ground (arith, ap (kept later) s)
    | inr (n, s) ↦ ground (
      arith,
      ap (kept later) s,
      ap length (prune-prune window_ms now later (k.ratelimit channel) h),
    )
  ]

  kept_if :
      (later now : ℕ) (a : Bool) (ts : List ℕ)
      → kept later (if a then now ∷ ts else ts)
        ≡ kept later (if a then now ∷ [] else []) + kept later ts
  unfolding kept prune
  kept_if later now true ts = ground arith
  kept_if later now false ts = ground arith

  none_kept : (later : ℕ) (ts : List ℕ) → kept later [] + kept later ts ≤ kept later ts
  unfolding kept prune
  none_kept later ts = ground arith

  fits :
      (m : ℤ) (n s : ℕ) → n ≤ s → not (ltb_ℤ m (pos (suc s))) ≡ true → leb_ℤ (pos (suc n)) m ≡ true
  fits m n s h p = ground arith

  run_kept :
      (later : ℕ) (rs : List Request) (k : Keys)
      → c.enabled ≡ true
      → AreCounted later rs
      → kept later (allowed_times rs k) + kept later (k.ratelimit channel)
        ≤ kept later ((after rs k).ratelimit channel)
  unfolding after allowed_times
  run_kept later [] k on ok = none_kept later (k.ratelimit channel)
  run_kept later (r ∷ more) k on ((h, p), ok) =
      let k' = (allow fl c r.faults r.now channel k).0 in
      omega (
        arith,
        kept_if later r.now (allow fl c r.faults r.now channel k).1.allowed (allowed_times more k'),
        step_kept r.faults r.now later k on p h,
        run_kept later more k' on ok,
      )

  -- After any requests that come no later than one that is allowed, there are at most as many allowed
  -- requests in its window as the channel's limit, itself included, if limiting is enabled and the
  -- pipeline fails for none of them. The limit holds whatever the cooldowns do.
  pub allowed_times-le :
      (rs : List Request) (k : Keys) (f : Faults) (now : ℕ)
      → c.enabled ≡ true
      → AreCounted now rs
      → f.pipeline ≡ false
      → (allow fl c f now channel (after rs k)).1.allowed ≡ true
      → leb_ℤ (pos (suc (kept now (allowed_times rs k)))) (limit_for fl c channel).max_requests
        ≡ true
  unfolding counted_set kept
  allowed_times-le rs k f now on ok p a = elim (allow_step f now (after rs k) on p) [
    | inl (n, s) ↦ ground arith
    | inr (n, s) ↦
        fits (limit_for fl c channel).max_requests (kept now (allowed_times rs k))
          (kept now ((after rs k).ratelimit channel)) (ground (arith, run_kept now rs k on ok))
          (sym n ∙ a)
  ]
