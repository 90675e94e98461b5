-- ===== src/Domain/Affirm/Sentences.antt =====
-- The two searches of unica/pkg/domain/affirm.go.
use lurus_unica.Common.{
  ℕ, zero, suc, ◌-◌, Bool, true, false, not, ◌&&◌, [], ◌∷◌, ◌++◌, length, arith, ◌≡◌, refl, inl,
  inr, Bool-cases,
}
use lurus_unica.Common.Text.{Text, has_prefix, is_empty}
use lurus_unica.Domain.Affirm.{
  neutralised, extend, sentence_around, affirming_from, affirmed_from, affirming_sentence,
  is_affirmed,
}

filled : (left t s : Text) → is_empty t ≡ false → is_empty (left ++ t ++ s) ≡ false
unfolding is_empty
filled [] [] s h = ground arith
filled [] (c ∷ t) s h = refl
filled (l ∷ left) t s h = refl

around_filled : (left t s : Text) → is_empty t ≡ false → is_empty (sentence_around left t s) ≡ false
unfolding sentence_around
around_filled left t s h = filled left t _ h

-- A step of the two searches: on, on behind a neutralised sentence, or found.
declarative_step :
    (p q x x' : Bool) (a y y' : Text)
    → neutralised a ≡ q
    → (x && neutralised y) ≡ false
    → (x' && neutralised y') ≡ false
    → (elim p [ false ↦ x | true ↦ elim q [ true ↦ x' | false ↦ true ] ]
        && neutralised (elim p [ false ↦ y | true ↦ elim q [ true ↦ y' | false ↦ a ] ]))
      ≡ false
declarative_step false q x x' a y y' e f g = f
declarative_step true true x x' a y y' e f g = g
declarative_step true false x x' a y y' e f g = e

module _ (term : Text) (given : is_empty term ≡ false) where
  from_filled :
      (left : Text) (n : ℕ) (s : Text)
      → affirmed_from term left n s ≡ not (is_empty (affirming_from term left n s))
  unfolding affirmed_from affirming_from is_empty
  from_filled left n [] = refl
  from_filled left (suc n) (c ∷ s) = from_filled (extend left c) n s
  from_filled left zero (c ∷ s) = ground (
    arith,
    around_filled left term (c ∷ s) given,
    from_filled (extend left c) zero s,
    from_filled (extend left c) (length term - 1) s,
  )

  from_declarative :
      (left : Text) (n : ℕ) (s : Text)
      → (affirmed_from term left n s && neutralised (affirming_from term left n s)) ≡ false
  unfolding affirmed_from affirming_from
  from_declarative left n [] = refl
  from_declarative left (suc n) (c ∷ s) = from_declarative (extend left c) n s
  from_declarative left zero (c ∷ s) =
      let left' = extend left c in
      let n = length term - 1 in
      let a = sentence_around left term (c ∷ s) in
      declarative_step (has_prefix (c ∷ s) term) (neutralised a) (affirmed_from term left' zero s)
        (affirmed_from term left' n s) a (affirming_from term left' zero s)
        (affirming_from term left' n s) refl (from_declarative left' zero s)
        (from_declarative left' n s)

-- A term is affirmed by a text exactly if the search for a sentence that affirms it finds one, and the
-- sentence found neither denies nor asks.
pub is_affirmed-sentence :
    (text term : Text)
    → (is_affirmed text term ≡ not (is_empty (affirming_sentence text term)))
      × ((is_affirmed text term && neutralised (affirming_sentence text term)) ≡ false)
unfolding is_affirmed affirming_sentence is_empty
is_affirmed-sentence text term = elim (Bool-cases (is_empty term)) [
  | inl e ↦ ground arith
  | inr g ↦ ground (arith, from_filled term g [] 0 text, from_declarative term g [] 0 text)
]
