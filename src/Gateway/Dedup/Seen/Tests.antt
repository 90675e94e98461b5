-- ===== src/Gateway/Dedup/Seen/Tests.antt =====
-- A message that is delivered three times.
use lurus_unica.Common.{String, true, false, none, List, [], ◌∷◌, eq_iff, arith, ◌≡◌, ◌≢◌, refl}
use lurus_unica.Gateway.Dedup.Seen.{Keys, is_live, is_duplicate, Arrival, arrive}
use lurus_unica.Gateway.Dedup.Seen.Window.{is_duplicate_again}

abbrev nothing : Keys
nothing = λ _. none

abbrev between : List Arrival
between =
    record { id = "m2"; time = 1500; redis_fails = false }
    ∷ record { id = "m1"; time = 1600; redis_fails = true }
    ∷ []

abbrev m1 : String
m1 = "m1"

m1_named : m1 ≢ ""
m1_named p = ground (arith, (eq_iff "m1" "").1 p)

m1_passes : (is_duplicate 1000 false 1000 "m1" nothing).1.duplicate ≡ false
unfolding is_duplicate is_live
m1_passes = refl

is_duplicate_again_example :
    (is_duplicate 1000 false 1900 "m1"
      (arrive 1000 between (is_duplicate 1000 false 1000 "m1" nothing).0)).1
    ≡ record { duplicate = true; failed = false }
is_duplicate_again_example =
    is_duplicate_again 1000 1000 1900 "m1" between nothing m1_named (omega arith) m1_passes
      (omega arith, (omega arith, tt)) (omega arith)
