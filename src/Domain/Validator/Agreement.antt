-- ===== src/Domain/Validator/Agreement.antt =====
-- The denials of unica/pkg/domain/validator.go against the affirmations of affirm.go.
use lurus_unica.Common.{ℕ, true, false, Option, List, [], ◌∷◌, arith, ◌≡◌, refl, if◌then◌else◌}
use lurus_unica.Common.Floats.{Floats}
use lurus_unica.Common.Text.{Text, is_empty}
use lurus_unica.Domain.Affirm.{is_affirmed, affirmed_from}
use lurus_unica.Domain.Affirm.Sentences.{is_affirmed-sentence}
use lurus_unica.Domain.Violation.{Violation, denied}
use lurus_unica.Domain.Ontology.Types.{Denial, Ontology}
use lurus_unica.Domain.Validator.{violation, check_denials}

abbrev pub terms : List Violation → List Text
terms [] = []
terms (v ∷ vs) = v.property ∷ terms vs

-- The terms that a text presents as on offer.
abbrev pub affirmed_terms : Text → List Denial → List Text
affirmed_terms answer [] = []
affirmed_terms answer (d ∷ ds) =
    let rest = affirmed_terms answer ds in if is_affirmed answer d.term then d.term ∷ rest else rest

abbrev pub AllDenied : List Violation → Type 0
AllDenied [] = Unit
AllDenied (v ∷ vs) = (v.kind ≡ denied) × AllDenied vs

nothing_affirmed : (answer term : Text) → is_empty answer ≡ true → is_affirmed answer term ≡ false
unfolding is_affirmed affirmed_from is_empty
nothing_affirmed [] term h = ground arith
nothing_affirmed (c ∷ answer) term h = ground arith

module _ (fl : Floats) (fold : ℕ → ℕ) (parse_float : Text → Option fl.Float)
    (say : Violation → Text) (o : Ontology fl.Float) where
  -- The scan for denials reports exactly the denied terms that the answer affirms, in the order in which
  -- the ontology lists them.
  pub check_denials_affirmed :
      (ds : List Denial) (answer : Text)
      → terms (check_denials fl fold parse_float say o ds answer) ≡ affirmed_terms answer ds
  unfolding check_denials violation
  check_denials_affirmed [] answer = refl
  check_denials_affirmed (d ∷ ds) answer = ground (
    arith,
    check_denials_affirmed ds answer,
    is_affirmed-sentence answer d.term,
    nothing_affirmed answer d.term,
  )
