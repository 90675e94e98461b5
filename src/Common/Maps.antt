-- ===== src/Common/Maps.antt =====
-- Go maps with string keys: as association lists where they are literals, and as functions where
-- they are written to.
use Prim.Native.String.{String}
use mathlib.Core.Path.{◌≡◌}
use mathlib.Core.Logic.{◌≢◌}
use mathlib.Core.Bool.{Bool, false, ◌||◌}
use mathlib.Core.Option.{Option, none, some}
use mathlib.Core.List.{List, [], ◌∷◌}
use native.Mathlib.Omega.{arith}
use text.Mathlib.Text.{◌==◌ as str_eq}
use text.Mathlib.TextEquality.{eq_iff}
use lurus_unica.Common.Tests.{if◌then◌else◌}

-- `m[k]` of a map literal.
module _ {ℓ} {V : Type ℓ} where
  unfoldable pub assoc : String → List (String × V) → Option V
  assoc k [] = none
  assoc k ((j, v) ∷ m) = let rest = assoc k m in if str_eq k j then some v else rest

-- A set of strings as a list.
unfoldable pub member : String → List String → Bool
member k [] = false
member k (j ∷ js) = str_eq k j || member k js

module _ {ℓ} {V : Type ℓ} where
  -- `m[k] = v`, or `delete(m, k)` for `none`.
  unfoldable pub put : (String → Option V) → String → Option V → String → Option V
  put m k v j = if str_eq j k then v else m j

  pub put_self : (m : String → Option V) (k : String) (v : Option V) → put m k v k ≡ v
  unfolding put
  put_self m k v = ground (arith, eq_iff k k)

  pub put_ne : (m : String → Option V) (k j : String) (v : Option V) → j ≢ k → put m k v j ≡ m j
  unfolding put
  put_ne m k j v h = ground (arith, eq_iff j k)
