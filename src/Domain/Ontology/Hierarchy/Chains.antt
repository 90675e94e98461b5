-- ===== src/Domain/Ontology/Hierarchy/Chains.antt =====
-- The chains of classes of unica/pkg/domain/ontology.go.
use lurus_unica.Common.{
  ℕ, zero, suc, ◌+◌, ◌<◌, true, false, some, List, [], ◌∷◌, arith, ◌≡◌, subst, if◌then◌else◌, inl,
  inr, Option-cases, Bool-cases, length,
}
use lurus_unica.Common.Text.{Text, is_empty, text_eq}
use lurus_unica.Domain.Ontology.Types.{Ontology, lookup}
use lurus_unica.Domain.Ontology.Hierarchy.{
  max_depth, hops_from, distance_to, parent_of, cycles_from, check_no_cycle,
}

module _ {F : Type 0} (o : Ontology F) where
  -- The class some hops above another.
  unfoldable pub above : ℕ → Text → Text
  above zero cur = cur
  above (suc k) cur = let rest = above k (parent_of o cur) in if is_empty cur then [] else rest

  hops_lem :
      (n : ℕ) (cur ancestor : Text) (depth k : ℕ)
      → hops_from o n cur ancestor depth ≡ some k
      → (j : ℕ) × (k ≡ depth + j) × (j < n) × (text_eq (above j cur) ancestor ≡ true)
  unfolding hops_from above
  hops_lem zero cur ancestor depth k h = ground arith
  hops_lem (suc n) cur ancestor depth k h = elim (Bool-cases (is_empty cur)) [
    | inl e ↦ ground arith
    | inr e ↦ elim (Bool-cases (text_eq cur ancestor)) [
      | inl t ↦ (0, ground arith, omega arith, t)
      | inr f ↦ elim (Option-cases (lookup cur o.classes)) [
        | inl p ↦ ground arith
        | inr (c, p) ↦
            let (j, q, l, t) = hops_lem n c.subclass_of ancestor (depth + 1) k (ground arith) in
            (suc j, omega arith, omega arith, ground arith)
      ]
    ]
  ]

  -- A distance that is found is a number of hops, below the cap of 16, that leads from the class to the
  -- ancestor.
  pub distance_to-above :
      (class ancestor : Text) (k : ℕ)
      → distance_to o class ancestor ≡ some k
      → (k < 16) × (text_eq (above k class) ancestor ≡ true)
  unfolding distance_to
  distance_to-above class ancestor k h =
      let (j, q, l, t) = hops_lem max_depth class ancestor 0 k h in
      let e : j ≡ k = omega arith in
      (omega arith, subst (λ x. text_eq (above x class) ancestor ≡ true) e t)

  cycles_lem :
      (n : ℕ) (seen : List Text) (cur : Text)
      → cycles_from o n seen cur ≡ false
      → is_empty (above n cur) ≡ true
  unfolding cycles_from above is_empty
  cycles_lem zero seen cur h = ground arith
  cycles_lem (suc n) seen cur h = elim (Bool-cases (is_empty cur)) [
    | inl e ↦ ground arith
    | inr e ↦ ground (arith, cycles_lem n (cur ∷ seen) (parent_of o cur))
  ]

  -- A class that passes the check for cycles has a chain of parents that ends, after at most two hops
  -- more than there are classes.
  pub check_no_cycle-ends :
      (class : Text)
      → check_no_cycle o class ≡ false
      → is_empty (above (suc (suc (length o.classes))) class) ≡ true
  unfolding check_no_cycle
  check_no_cycle-ends class h = cycles_lem (suc (suc (length o.classes))) [] class h
