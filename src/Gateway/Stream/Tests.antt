-- ===== src/Gateway/Stream/Tests.antt =====
-- Two outbound messages, of which one fails, and the theorems on them.
use lurus_unica.Common.{
  String, true, false, Option, none, some, [], ◌∷◌, ltb, eq_iff, arith, ◌≡◌, refl, inl,
}
use lurus_unica.Common.Search.{is_some}
use lurus_unica.Gateway.Stream.{
  Entry, Group, Env, remove, ack, dispatch_from, decoded, process_message, process_all,
}
use lurus_unica.Gateway.Stream.Delivery.{is_pending, IsSafe, process_all-IsSafe}

-- Every payload can be decoded, as itself.
abbrev as_text : String → Option String
as_text t = some t

abbrev first : Entry
first = record { id = "1-0"; payload = some "hello" }

abbrev second : Entry
second = record { id = "2-0"; payload = none }

abbrev twice : Env
twice = record { fails = λ k. ltb k 2; stopped = λ _. false; ack_fails = false }

abbrev always : Env
always = record { fails = λ _. true; stopped = λ _. false; ack_fails = false }

abbrev waiting : Group
waiting = record { pending = first ∷ second ∷ []; sent = [] }

third_time :
    process_message as_text twice first waiting
    ≡ record { pending = second ∷ []; sent = "1-0" ∷ [] }
unfolding process_message dispatch_from ack remove
third_time = refl

process_all-IsSafe_example :
    IsSafe as_text first (process_all as_text (λ _. always) (second ∷ first ∷ []) waiting)
unfolding decoded is_some is_pending
process_all-IsSafe_example =
    process_all-IsSafe as_text (λ _. always) (second ∷ first ∷ []) first waiting
      (λ p. ground (arith, (eq_iff second.id first.id).1 p), (λ p. refl, tt)) refl (inl refl)
