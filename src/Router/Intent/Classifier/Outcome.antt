-- ===== src/Router/Intent/Classifier/Outcome.antt =====
-- What `Classify` of unica/router/internal/intent/classifier.go decides, in terms of which tables
-- have an entry in the message.
use lurus_unica.Common.{
  ℕ, Bool, true, false, not, ◌&&◌, ◌||◌, List, [], ◌∷◌, if◌then◌else◌, arith, ◌≡◌, refl, sym,
}
use lurus_unica.Common.Text.{Text, has_prefix, contains, is_empty}
use lurus_unica.Common.Search.{is_some, any, is_some-find}
use lurus_unica.Router.Intent.Markers.{
  harm_markers, escalation_markers, human_request_markers, personal_markers, personal_data_nouns,
  question_markers, consult_verbs, hypothetical_markers, intent_markers, action_nouns,
  demand_phrases,
}
use lurus_unica.Router.Intent.Classifier.{
  Class, informational, transactional, emotional, consultation, first_match, classify_action,
  classify_personal, classify_rules, normalised, classify,
}

-- A table has an entry in the message.
abbrev pub mentions : Text → List Text → Bool
mentions msg markers = any (contains msg) markers

-- The message is upset, asks for a person or for its own records, or demands an action.
unfoldable pub upset : Text → Bool
upset msg = mentions msg harm_markers || mentions msg escalation_markers

unfoldable pub asks_back : Text → Bool
asks_back msg =
    mentions msg question_markers || mentions msg consult_verbs || mentions msg hypothetical_markers

unfoldable pub demands : Text → Bool
demands msg =
    (mentions msg intent_markers && mentions msg action_nouns) || mentions msg demand_phrases

unfoldable pub requests : Text → Bool
unfolding asks_back demands
requests msg =
    mentions msg human_request_markers
    || (mentions msg personal_markers && mentions msg personal_data_nouns)
    || (not (asks_back msg) && demands msg)

unfoldable pub class_of : Bool → Bool → Class
class_of true r = emotional
class_of false true = transactional
class_of false false = informational

match-mentions : (msg : Text) (t : List Text) → is_some (first_match msg t) ≡ mentions msg t
unfolding first_match
match-mentions msg t = is_some-find (contains msg) t

action-class :
    (msg : Text)
    → (classify_action msg).class
      ≡ (if not (asks_back msg) && demands msg then transactional else informational)
unfolding classify_action asks_back demands is_some
action-class msg = ground (
  arith,
  match-mentions msg question_markers,
  match-mentions msg consult_verbs,
  match-mentions msg hypothetical_markers,
  match-mentions msg intent_markers,
  match-mentions msg action_nouns,
  match-mentions msg demand_phrases,
)

personal-class :
    (msg : Text)
    → (classify_personal msg).class ≡ (
        if (mentions msg personal_markers && mentions msg personal_data_nouns)
          || (not (asks_back msg) && demands msg)
        then transactional
        else informational)
unfolding classify_personal is_some
personal-class msg = ground (
  arith,
  match-mentions msg personal_markers,
  match-mentions msg personal_data_nouns,
  action-class msg,
)

rules-class : (msg : Text) → (classify_rules msg).class ≡ class_of (upset msg) (requests msg)
unfolding classify_rules upset requests is_some class_of
rules-class msg = ground (
  arith,
  match-mentions msg harm_markers,
  match-mentions msg escalation_markers,
  match-mentions msg human_request_markers,
  personal-class msg,
)

blank-class : class_of (upset []) (requests []) ≡ informational
unfolding upset requests asks_back demands class_of any contains has_prefix harm_markers
    escalation_markers human_request_markers personal_markers personal_data_nouns question_markers
    consult_verbs hypothetical_markers intent_markers action_nouns demand_phrases
blank-class = refl

classified :
    (msg : Text)
    → (if is_empty msg then consultation else classify_rules msg).class
      ≡ class_of (upset msg) (requests msg)
unfolding is_empty
classified [] = sym blank-class
classified (c ∷ cs) = rules-class (c ∷ cs)

-- The class of a message: emotional if it mentions a harm or an escalation marker; otherwise
-- transactional if it asks for a person, mentions its own records, or demands an action without a
-- question, a consultative or a hypothetical marker; and otherwise informational.
pub classify-class :
    (lower : ℕ → ℕ) (m : Text)
    → (classify lower m).class
      ≡ class_of (upset (normalised lower m)) (requests (normalised lower m))
unfolding classify
classify-class lower m = classified (normalised lower m)
