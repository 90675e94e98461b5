-- ===== src/Router/Guardrail/Evaluator/Modes.antt =====
-- The triage modes of unica/router/internal/guardrail/triage.go.
use lurus_unica.Common.{
  false, ◌&&◌, not, ℕ, Bool, true, ◌||◌, some, [], ◌∷◌, map, ==_iff, arith, ◌≡◌, refl, ap, ◌⊎◌, inl,
  inr, Bool-cases,
}
use lurus_unica.Common.Text.{text_eq, Text, trim_space, is_empty}
use lurus_unica.Router.Guardrail.Evaluator.{
  TriageMode, triage_off, triage_shadow, triage_on, decides_routing, classifies, parse_triage_mode,
}

text_eq→≡ : (s t : Text) → text_eq s t ≡ true → s ≡ t
unfolding text_eq
text_eq→≡ [] [] h = refl
text_eq→≡ [] (c ∷ t) h = ground arith
text_eq→≡ (c ∷ s) [] h = ground arith
text_eq→≡ (c ∷ s) (d ∷ t) h =
    let p : c ≡ d = ground (arith, ==_iff c d) in
    let q : s ≡ t = text_eq→≡ s t (ground arith) in
    ground (arith, ap (λ z. z ∷ s) p, ap (λ z. d ∷ z) q)

read_as : (mode known m : Text) → text_eq mode known ≡ true → some mode ≡ some m → m ≡ known
read_as mode known m p q = ground (arith, text_eq→≡ mode known p)

either : (x y : Bool) → (y && not (x || y)) ≡ false
either x y = ground arith

-- The modes: each of them, once.
abbrev pub IsMode : TriageMode → Type 0
IsMode m = (m ≡ triage_off) ⊎ ((m ≡ triage_shadow) ⊎ (m ≡ triage_on))

module _ (lower : ℕ → ℕ) where
  -- What the configuration is read as is one of the three modes, and only a mode that classifies messages
  -- decides their routing.
  pub parse_triage_mode-IsMode :
      (s : Text) (m : TriageMode)
      → parse_triage_mode lower s ≡ some m
      → IsMode m × ((decides_routing m && not (classifies m)) ≡ false)
  unfolding parse_triage_mode decides_routing classifies
  parse_triage_mode-IsMode s m h =
      let mode = map lower (trim_space s) in
      (
        elim (Bool-cases (is_empty mode)) [
          | inl e ↦ inr (inl (ground arith))
          | inr n ↦ elim (Bool-cases (text_eq mode triage_off)) [
            | inl p ↦ inl (read_as mode triage_off m p (ground arith))
            | inr o ↦ elim (Bool-cases (text_eq mode triage_shadow)) [
              | inl p ↦ inr (inl (read_as mode triage_shadow m p (ground arith)))
              | inr w ↦ elim (Bool-cases (text_eq mode triage_on)) [
                | inl p ↦ inr (inr (read_as mode triage_on m p (ground arith)))
                | inr d ↦ ground arith
              ]
            ]
          ]
        ],
        either (text_eq m triage_shadow) (text_eq m triage_on),
      )
