-- ===== src/Domain/Escalation/Tests.antt =====
-- Answers of the model, and the theorems on them at concrete inputs.
use lurus_unica.Common.{if◌then◌else◌, true, ◌≡◌, refl}
use lurus_unica.Common.Text.{text_eq, Text, codes, trim_space, trim_left, is_space}
use lurus_unica.Common.Search.{any}
use lurus_unica.Domain.Escalation.{
  folded, strip_from, escalate_payout, has_tag, parse_escalation, known_escalations,
}
use lurus_unica.Domain.Escalation.Parsing.{parse_escalation_tag}

abbrev tagged : Text
tagged = codes "我为您登记。[Handoff: Payout ]"

tagged_payout :
    parse_escalation folded tagged
    ≡ record { requested = true; reason = escalate_payout; cleaned_answer = codes "我为您登记。" }
unfolding parse_escalation trim_space trim_left is_space
tagged_payout = refl

-- The removal of a tag can leave a tag.
nested : has_tag (parse_escalation folded (codes "[HAND[HANDOFF]OFF]")).cleaned_answer ≡ true
unfolding parse_escalation trim_space trim_left is_space has_tag
nested = refl

parse_escalation_tag_example :
    ((parse_escalation folded tagged).requested ≡ has_tag tagged)
    × ((any (text_eq (parse_escalation folded tagged).reason) known_escalations ≡ has_tag tagged)
        × ((parse_escalation folded tagged).cleaned_answer
            ≡ trim_space (if has_tag tagged then strip_from 0 tagged else tagged)))
parse_escalation_tag_example = parse_escalation_tag folded tagged
