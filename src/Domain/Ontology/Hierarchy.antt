-- ===== src/Domain/Ontology/Hierarchy.antt =====
-- The classes of unica/pkg/domain/ontology.go.
pub mod Chains
use lurus_unica.Common.{
  ℕ, zero, suc, ◌+◌, Bool, true, false, not, ◌&&◌, ◌||◌, Option, none, some, List, [], ◌∷◌,
  if◌then◌else◌, length,
}
use lurus_unica.Common.Text.{Text, codes, is_empty, text_eq}
use lurus_unica.Common.Search.{any, is_some}
use lurus_unica.Domain.Ontology.Types.{OntologyClass, Property, Ontology, lookup}

-- `maxDepth`.
abbrev pub max_depth : ℕ
max_depth = 16

module _ {F : Type 0} (o : Ontology F) where
  -- The loop of `distanceTo`, with the rounds that are left, and the number of hops so far.
  unfoldable pub hops_from : ℕ → Text → Text → ℕ → Option ℕ
  unfolding is_empty text_eq lookup
  hops_from zero cur ancestor depth = none
  hops_from (suc n) cur ancestor depth =
      if is_empty cur
      then none
      else if text_eq cur ancestor
      then some depth
      else elim (lookup cur o.classes) [
        | none ↦ none
        | some c ↦ hops_from n c.subclass_of ancestor (depth + 1)
      ]

  unfoldable pub distance_to : Text → Text → Option ℕ
  unfolding hops_from
  distance_to class ancestor = hops_from max_depth class ancestor 0

  unfoldable pub is_subclass_of : Text → Text → Bool
  unfolding distance_to is_some
  is_subclass_of child ancestor = is_some (distance_to child ancestor)

  unfoldable pub applies_to : Property F → Text → Bool
  unfolding is_empty is_subclass_of
  applies_to prop class =
      if is_empty prop.domain || is_empty class then true else is_subclass_of class prop.domain

  -- A group that names an ancestor of each class.
  unfoldable pub separates : Text → Text → List Text → Bool
  unfolding any is_subclass_of
  separates a b group = any (is_subclass_of a) group && any (is_subclass_of b) group

  unfoldable pub disjoints : Text → Text → Bool
  unfolding any separates text_eq
  disjoints a b = if text_eq a b then false else any (separates a b) o.disjoint

  abbrev pub parent_of : Text → Text
  parent_of cur = elim (lookup cur o.classes) [ none ↦ [] | some c ↦ c.subclass_of ]

  -- The loop of `checkNoCycle`, with the classes seen so far; `true` means that a cycle was found. The
  -- rounds that are left run out at a cycle.
  unfoldable pub cycles_from : ℕ → List Text → Text → Bool
  unfolding is_empty any text_eq lookup
  cycles_from zero seen cur = not (is_empty cur)
  cycles_from (suc n) seen cur =
      if is_empty cur
      then false
      else if any (text_eq cur) seen
      then true
      else cycles_from n (cur ∷ seen) (parent_of cur)

  -- A round more than there are classes, since a class is seen once.
  unfoldable pub check_no_cycle : Text → Bool
  unfolding cycles_from
  check_no_cycle start = cycles_from (suc (suc (length o.classes))) [] start
