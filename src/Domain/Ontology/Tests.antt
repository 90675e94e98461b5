-- ===== src/Domain/Ontology/Tests.antt =====
-- The shop of the samples under unica/pkg/domain/ontology.go, and the theorems at concrete inputs.
use lurus_unica.Common.{◌≤◌, ◌==◌, false, none, some, [], ◌∷◌, All, ◌≡◌, refl, if◌then◌else◌}
use lurus_unica.Common.Floats.{fixed}
use lurus_unica.Common.Text.{codes, trim_space}
use lurus_unica.Domain.Escalation.{folded}
use lurus_unica.Domain.Ontology.Types.{Scope, Assertion, effective_scope, lookup, property_of}
use lurus_unica.Domain.Ontology.Hierarchy.{distance_to, check_no_cycle, applies_to}
use lurus_unica.Domain.Ontology.Facts.{asserted_values, facts_of, match_scope}
use lurus_unica.Domain.Ontology.Facts.Best.{highest, rank, first_ranked, asserted_values_best}
use lurus_unica.Domain.Ontology.Values.{check_value}
use lurus_unica.Domain.Ontology.Consistency.{validate_ontology, validate_value}
use lurus_unica.Domain.Ontology.Consistency.Checked.{IsStateable, validate_ontology-IsStateable}
use lurus_unica.Domain.Ontology.Samples.{shop, parse_thousandths}

abbrev phone : Scope
phone = (codes "class", codes "手机") ∷ []

shop_accepted : validate_ontology fixed folded parse_thousandths shop ≡ none
unfolding validate_ontology validate_value check_value property_of applies_to lookup trim_space
    folded parse_thousandths
shop_accepted = refl

validate_ontology-IsStateable_example :
    All
      (λ (a : Assertion).
        All (IsStateable fixed folded parse_thousandths shop (effective_scope a)) a.values)
      shop.assertions
validate_ontology-IsStateable_example =
    validate_ontology-IsStateable fixed folded parse_thousandths shop shop_accepted

phone_days : asserted_values folded shop phone (codes "days") ≡ some (codes "7" ∷ [])
unfolding asserted_values facts_of match_scope folded trim_space
phone_days = refl

asserted_values_best_example :
    (asserted_values folded shop phone (codes "days") ≡ (
      if highest folded shop phone 0 (facts_of shop (codes "days")) == 0
      then none
      else some (
          first_ranked folded shop phone
            (highest folded shop phone 0 (facts_of shop (codes "days")))
            (facts_of shop (codes "days")))))
    × All
        (λ e. rank folded shop phone e ≤ highest folded shop phone 0 (facts_of shop (codes "days")))
        (facts_of shop (codes "days"))
asserted_values_best_example = asserted_values_best folded shop phone (codes "days")

phone_distance : distance_to shop (codes "手机") (codes "商品") ≡ some 1
unfolding distance_to
phone_distance = refl

phone_acyclic : check_no_cycle shop (codes "手机") ≡ false
unfolding check_no_cycle
phone_acyclic = refl
