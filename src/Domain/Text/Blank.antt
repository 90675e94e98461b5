-- ===== src/Domain/Text/Blank.antt =====
-- `IsBlankAnswer` of unica/pkg/domain/text.go and the trimming of white space.
use lurus_unica.Common.{
  ℕ, true, false, [], ◌∷◌, ==_iff, arith, ◌≡◌, refl, subst, ◌∙◌, inl, inr, Bool-cases,
}
use lurus_unica.Common.Text.{Text, has_prefix, contains, is_space, trim_space, is_empty}
use lurus_unica.Common.Occurs.{opens, contains-trim_space}
use lurus_unica.Domain.Text.{Categories, is_unread, is_blank_answer}

contains_self : (c : ℕ) (s : Text) → contains (c ∷ s) (c ∷ []) ≡ true
unfolding contains has_prefix
contains_self c [] = ground (arith, ==_iff c c)
contains_self c (d ∷ s) = ground (arith, ==_iff c c)

nothing_in : (c : ℕ) → contains [] (c ∷ []) ≡ false
unfolding contains has_prefix
nothing_in c = refl

empty_nil : (s : Text) → is_empty s ≡ true → s ≡ []
unfolding is_empty
empty_nil [] h = refl
empty_nil (c ∷ s) h = ground arith

module _ (u : Categories) where
  space-unread : (c : ℕ) → is_space c ≡ true → is_unread u c ≡ true
  unfolding is_unread
  space-unread c h = ground arith

  -- A character of the text that is read.
  read_character :
      (s : Text)
      → is_blank_answer u s ≡ false
      → (c : ℕ) × ((is_space c ≡ false) × (contains s (c ∷ []) ≡ true))
  unfolding is_blank_answer contains
  read_character [] h = ground arith
  read_character (c ∷ s) h = elim (Bool-cases (is_unread u c)) [
    | inr f ↦ (c, (not_space c f, contains_self c s))
    | inl t ↦ let (d, (n, p)) = read_character s (ground arith) in (d, (n, ground arith))
  ]
    where
      not_space : (c : ℕ) → is_unread u c ≡ false → is_space c ≡ false
      not_space c f = ground (arith, space-unread c)

  opens_with : (c : ℕ) → is_space c ≡ false → opens (c ∷ []) ≡ true
  unfolding opens
  opens_with c n = ground (arith, n)

  -- An answer that trimming empties is blank, whatever the tables of categories are.
  pub trim_space-Blank : (s : Text) → is_empty (trim_space s) ≡ true → is_blank_answer u s ≡ true
  trim_space-Blank s h = elim (Bool-cases (is_blank_answer u s)) [
    | inl t ↦ t
    | inr f ↦
        let (c, (n, p)) = read_character s f in
        let q : contains (trim_space s) (c ∷ []) ≡ true =
          contains-trim_space s (c ∷ []) (opens_with c n) (opens_with c n) ∙ p in
        let e : contains [] (c ∷ []) ≡ true =
          subst (λ z. contains z (c ∷ []) ≡ true) (empty_nil (trim_space s) h) q in
        ground (arith, nothing_in c)
  ]
