-- ===== src/Domain/Validator/Tests.antt =====
-- Answers of the shop of the samples under unica/pkg/domain/validator.go, and the theorems at concrete
-- inputs.
use lurus_unica.Common.{false, not, List, [], ◌∷◌, ◌≡◌, refl, ◌&&◌}
use lurus_unica.Common.Floats.{fixed}
use lurus_unica.Common.Text.{Text, codes, is_empty, trim_space}
use lurus_unica.Domain.Escalation.{folded}
use lurus_unica.Domain.Affirm.{is_affirmed, affirming_sentence, neutralised}
use lurus_unica.Domain.Affirm.Sentences.{is_affirmed-sentence}
use lurus_unica.Domain.Claims.{Claim}
use lurus_unica.Domain.Ontology.Facts.{match_scope}
use lurus_unica.Domain.Ontology.Samples.{shop, parse_thousandths, wording}
use lurus_unica.Domain.Validator.{check_claims, check_denials}
use lurus_unica.Domain.Validator.Agreement.{terms, affirmed_terms, check_denials_affirmed}

abbrev refusal : Text
refusal = codes "抱歉，货到付款不行。可以货到付款！"

abbrev quoting : Text → List Claim
quoting v = record { qualifiers = codes "手机" ∷ []; property = codes "days"; value = v } ∷ []

right_days :
    terms (check_claims fixed folded parse_thousandths wording shop (quoting (codes "7天")))
    ≡ codes "days" ∷ []
unfolding check_claims match_scope folded trim_space parse_thousandths
right_days = refl

quoted_days : check_claims fixed folded parse_thousandths wording shop (quoting (codes "7")) ≡ []
unfolding check_claims match_scope folded trim_space parse_thousandths
quoted_days = refl

check_denials_affirmed_example :
    terms (check_denials fixed folded parse_thousandths wording shop shop.denials refusal)
    ≡ affirmed_terms refusal shop.denials
check_denials_affirmed_example =
    check_denials_affirmed fixed folded parse_thousandths wording shop shop.denials refusal

is_affirmed-sentence_example :
    (is_affirmed refusal (codes "货到付款")
      ≡ not (is_empty (affirming_sentence refusal (codes "货到付款"))))
    × ((is_affirmed refusal (codes "货到付款")
          && neutralised (affirming_sentence refusal (codes "货到付款")))
        ≡ false)
is_affirmed-sentence_example = is_affirmed-sentence refusal (codes "货到付款")
