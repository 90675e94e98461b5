-- ===== src/Domain/Ontology/Facts/Best.antt =====
-- Which assertion of unica/pkg/domain/ontology.go answers a query.
use lurus_unica.Common.{
  ℕ, suc, ◌==◌, ◌≤◌, Option, none, some, List, [], ◌∷◌, All, arith, ◌≡◌, refl, ltb, if◌then◌else◌,
}
use lurus_unica.Common.Text.{Text}
use lurus_unica.Domain.Ontology.Types.{Scope, Ontology}
use lurus_unica.Domain.Ontology.Facts.{
  ScopedValues, better, match_scope, best_from, facts_of, asserted_values,
}

unfoldable pub score : Option ℕ → ℕ
score none = 0
score (some n) = suc n

unfoldable pub rank_of : Option (ℕ × List Text) → ℕ
rank_of none = 0
rank_of (some (n, vs)) = suc n

unfoldable pub values_of : Option (ℕ × List Text) → List Text
values_of none = []
values_of (some (n, vs)) = vs

rank-better :
    (best : Option (ℕ × List Text)) (m : Option ℕ) (vs : List Text)
    → (rank_of (better best m vs)
        ≡ (if ltb (rank_of best) (score m) then score m else rank_of best))
      × (values_of (better best m vs)
          ≡ (if ltb (rank_of best) (score m) then vs else values_of best))
unfolding better rank_of score values_of
rank-better best none vs = ground arith
rank-better none (some n) vs = ground arith
rank-better (some (b, us)) (some n) vs = ground arith

module _ (fold : ℕ → ℕ) {F : Type 0} (o : Ontology F) (query : Scope) where
  -- How well an entry fits, where 0 is not at all, and how well the best one so far does.
  unfoldable pub rank : ScopedValues → ℕ
  rank e = score (match_scope fold o e.scope query)

  -- The first entry of a list that fits as well as a number says.
  unfoldable pub first_ranked : ℕ → List ScopedValues → List Text
  unfolding rank
  first_ranked n [] = []
  first_ranked n (e ∷ es) = let rest = first_ranked n es in if rank e == n then e.values else rest

  unfoldable pub highest : ℕ → List ScopedValues → ℕ
  unfolding rank
  highest n [] = n
  highest n (e ∷ es) = highest (if ltb n (rank e) then rank e else n) es

  highest-ge : (n : ℕ) (es : List ScopedValues) → n ≤ highest n es
  unfolding highest
  highest-ge n [] = omega arith
  highest-ge n (e ∷ es) = ground (arith, highest-ge (if ltb n (rank e) then rank e else n) es)

  -- The search as a maximum and its first place.
  abbrev values_at : Option (ℕ × List Text) → List ScopedValues → List Text
  values_at best es =
      let n = highest (rank_of best) es in
      if n == rank_of best then values_of best else first_ranked n es

  best_lem :
      (best : Option (ℕ × List Text)) (es : List ScopedValues)
      → (rank_of (best_from fold o query best es) ≡ highest (rank_of best) es)
        × (values_of (best_from fold o query best es) ≡ values_at best es)
  unfolding best_from highest first_ranked rank values_of
  best_lem best [] = (refl, ground arith)
  best_lem best (e ∷ es) =
      let m = match_scope fold o e.scope query in
      let b = better best m e.values in
      ground (
        arith,
        rank-better best m e.values,
        best_lem b es,
        highest-ge (if ltb (rank_of best) (rank e) then rank e else rank_of best) es,
      )

  asserted_values_eq :
      (property : Text)
      → let es = facts_of o property in
        asserted_values fold o query property
        ≡ (if highest 0 es == 0 then none else some (first_ranked (highest 0 es) es))
  unfolding asserted_values rank_of values_of
  asserted_values_eq property = ground (arith, best_lem none (facts_of o property))

  rank-le : (n : ℕ) (es : List ScopedValues) → All (λ e. rank e ≤ highest n es) es
  unfolding highest
  rank-le n [] = tt
  rank-le n (e ∷ es) =
      let k = if ltb n (rank e) then rank e else n in
      (ground (arith, highest-ge k es), rank-le k es)

  -- The values that hold for a property in a scope are those of the entry that fits the scope best, the
  -- first one of them in the order of the entries, and there are none exactly if no entry fits at all:
  -- no entry fits better than the one whose values are taken.
  pub asserted_values_best :
      (property : Text)
      → let es = facts_of o property in
        (asserted_values fold o query property
          ≡ (if highest 0 es == 0 then none else some (first_ranked (highest 0 es) es)))
        × All (λ e. rank e ≤ highest 0 es) es
  asserted_values_best property = (asserted_values_eq property, rank-le 0 (facts_of o property))
