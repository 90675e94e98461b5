-- ===== src/Domain/Claims/Tests.antt =====
-- Answers with tags of unica/pkg/domain/claims.go, and the theorems at concrete inputs.
use lurus_unica.Common.{[], ◌∷◌, ◌≡◌, refl}
use lurus_unica.Common.Text.{Text, codes, trim_space}
use lurus_unica.Common.Tags.{find_all, erase_all, collapse}
use lurus_unica.Domain.Claims.{parse_claims, fact_at, fact_tag_at}

abbrev answer : Text
answer = codes "可以退 [fact:签约前.退费比例= 80 ] 款[FACT:学位免责]"

answer_claims : parse_claims answer ≡ record {
  cleaned_answer = codes "可以退 款";
  claims =
      record { qualifiers = codes "签约前" ∷ []; property = codes "退费比例"; value = codes "80" } ∷ [];
}
unfolding parse_claims fact_at fact_tag_at find_all erase_all collapse trim_space
answer_claims = refl

-- A tag within a tag is stripped once, which leaves a tag.
nested_tag : (parse_claims (codes "[FA[FACT:x]CT:退费=80]")).cleaned_answer ≡ codes "[FACT:退费=80]"
unfolding parse_claims fact_tag_at erase_all collapse trim_space
nested_tag = refl
