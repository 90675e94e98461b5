-- ===== src/Gateway/RateLimit/Burst.antt =====
-- What a burst leads to (`RecordAndCheck` of unica/gateway/internal/ratelimit/burst.go, and the check of
-- the cooldown in limiter.go).
use lurus_unica.Common.{
  ℕ, suc, ◌+◌, ◌/◌, ◌<◌, String, true, false, some, List, eq_iff, lt→ltb, length, pos, pos_part,
  ltb_ℤ, arith, ◌≡◌, refl, sym, subst, ◌∙◌, ap,
}
use lurus_unica.Common.Floats.{Floats}
use lurus_unica.Gateway.RateLimit.{
  ChannelLimit, Config, Keys, Result, Faults, nanos_per_milli, at, prune, in_cooldown, cooldown_of,
  cooldown_until, limit_for, burst_threshold, record_and_check, count_request, allow,
}
use lurus_unica.Gateway.RateLimit.Window.{counted_set, counted_keys}

module _ (fl : Floats) (c : Config fl.Float) (channel : String) (f : Faults) (now : ℕ)
    (k : Keys) where
  -- The limit of the channel.
  abbrev pub limits : ChannelLimit fl.Float
  limits = limit_for fl c channel

  -- The request is counted, it is over the threshold of the burst window, and nothing fails.
  pub record IsBurst : Type 0 where
    pub enabled : c.enabled ≡ true
    pub counted : f.pipeline ≡ false
    pub calm : in_cooldown now (k.cooldown channel) ≡ false
    pub recorded : f.burst_pipeline ≡ false
    pub noted : f.cooldown_set ≡ false
    pub over :
        ltb_ℤ
          (burst_threshold fl limits)
          (pos (suc (length (prune 10000 f.burst_now (k.burst channel)))))
        ≡ true

  burst_cooldown :
      (q : Keys)
      → q.burst ≡ k.burst
      → IsBurst
      → (record_and_check fl f channel limits q).cooldown channel
        ≡ some (cooldown_until f.burst_now limits.cooldown_sec)
  unfolding record_and_check
  burst_cooldown q e h =
      let over' : ltb_ℤ (burst_threshold fl limits)
            (pos (suc (length (prune 10000 f.burst_now (q.burst channel)))))
          ≡ true =
        subst
          (λ (m : String → List ℕ).
            ltb_ℤ (burst_threshold fl limits)
              (pos (suc (length (prune 10000 f.burst_now (m channel)))))
            ≡ true)
          (sym e) h.over in
      ground (arith, over', h.recorded, h.noted, eq_iff channel channel)

  through_calm : IsBurst → allow fl c f now channel k ≡ count_request fl f now channel limits k
  unfolding allow
  through_calm h = ground (arith, h.enabled, h.calm)

  cooldown_after :
      IsBurst
      → (allow fl c f now channel k).0.cooldown channel
        ≡ some (cooldown_until f.burst_now limits.cooldown_sec)
  cooldown_after h =
      ap (λ (q : Keys × Result). q.0.cooldown channel) (through_calm h)
      ∙ ap (λ (q : Keys). q.cooldown channel) (counted_keys fl c channel f now limits k h.counted)
      ∙ burst_cooldown
          (record k { ratelimit = at k.ratelimit channel (counted_set fl c channel now limits k) })
          refl h

  ends_later :
      (later : ℕ)
      → ltb_ℤ (pos 0) (cooldown_of limits.cooldown_sec) ≡ true
      → later < f.burst_now + pos_part (cooldown_of limits.cooldown_sec) / nanos_per_milli
      → in_cooldown later (some (cooldown_until f.burst_now limits.cooldown_sec)) ≡ true
  unfolding in_cooldown cooldown_until
  ends_later later p h = ground (
    arith,
    p,
    lt→ltb later (f.burst_now + pos_part (cooldown_of limits.cooldown_sec) / nanos_per_milli) h,
  )

  rejected :
      (g : Faults) (later : ℕ) (q : Keys)
      → c.enabled ≡ true
      → g.cooldown_check ≡ false
      → in_cooldown later (q.cooldown channel) ≡ true
      → allow fl c g later channel q ≡ (
        q,
        record {
          allowed = false;
          current = 0;
          limit = limits.max_requests;
          retry_after = cooldown_of limits.cooldown_sec;
        },
      )
  unfolding allow
  rejected g later q on ok cold = ground arith

  -- After a request that is a burst, every request of the channel before the end of a positive cooldown
  -- is rejected with the cooldown's length, and is not recorded, if its check of the cooldown works.
  pub burst_blocks :
      (g : Faults) (later : ℕ)
      → IsBurst
      → ltb_ℤ (pos 0) (cooldown_of limits.cooldown_sec) ≡ true
      → later < f.burst_now + pos_part (cooldown_of limits.cooldown_sec) / nanos_per_milli
      → g.cooldown_check ≡ false
      → allow fl c g later channel (allow fl c f now channel k).0 ≡ (
        (allow fl c f now channel k).0,
        record {
          allowed = false;
          current = 0;
          limit = limits.max_requests;
          retry_after = cooldown_of limits.cooldown_sec;
        },
      )
  burst_blocks g later h p before ok =
      rejected g later (allow fl c f now channel k).0 h.enabled ok
        (ap (in_cooldown later) (cooldown_after h) ∙ ends_later later p before)
