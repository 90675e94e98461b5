-- ===== src/Domain/Ontology/Labels.antt =====
-- The wordings of scopes and values in unica/pkg/domain: render.go, and `Keys` of ontology.go.
use lurus_unica.Common.{none, some, List, [], ◌∷◌, ◌++◌, map, if◌then◌else◌, ◌==◌}
use lurus_unica.Common.Text.{Text, codes, is_empty, text_eq}
use lurus_unica.Domain.Violation.{join}
use lurus_unica.Domain.Ontology.Types.{
  class_dimension, Scope, Property, Ontology, lookup, keys, display,
}
use lurus_unica.Domain.Ontology.Facts.{text_lt}
use lurus_unica.Domain.Ontology.Values.{range_percent, range_money}

-- `sort.Strings`.
unfoldable pub insert_text : Text → List Text → List Text
unfolding text_lt
insert_text x [] = x ∷ []
insert_text x (y ∷ ys) = let rest = insert_text x ys in if text_lt y x then y ∷ rest else x ∷ y ∷ ys

unfoldable pub sort_texts : List Text → List Text
unfolding insert_text
sort_texts [] = []
sort_texts (x ∷ xs) = insert_text x (sort_texts xs)

unfoldable pub other_keys : List Text → List Text
unfolding text_eq
other_keys [] = []
other_keys (k ∷ ks) =
    let rest = other_keys ks in if text_eq k class_dimension then rest else k ∷ rest

unfoldable pub scope_keys : Scope → List Text
unfolding sort_texts other_keys keys lookup
scope_keys s =
    let others = sort_texts (other_keys (keys s)) in
    elim (lookup class_dimension s) [ none ↦ others | some c ↦ class_dimension ∷ others ]

module _ {F : Type 0} (o : Ontology F) where
  unfoldable pub class_label : Text → Text
  unfolding lookup is_empty
  class_label class = elim (lookup class o.classes) [
    | none ↦ class
    | some c ↦ if is_empty c.label then class else c.label
  ]

  unfoldable pub scope_value_label : Text → Text → Text
  unfolding class_label text_eq lookup display
  scope_value_label dimension value =
      if text_eq dimension class_dimension
      then class_label value
      else elim (lookup dimension o.dimensions) [ none ↦ value | some d ↦ display d.labels value ]

  abbrev value_at : Scope → Text → Text
  value_at s k = elim (lookup k s) [ none ↦ [] | some v ↦ v ]

  unfoldable pub scope_label : Scope → Text
  unfolding scope_keys scope_value_label join lookup
  scope_label [] = codes "通用"
  scope_label (x ∷ xs) =
      join (codes "·") (map (λ k. scope_value_label k (value_at (x ∷ xs) k)) (scope_keys (x ∷ xs)))

abbrev pub unit_labels : List (Text × Text)
unit_labels =
    (codes "day", codes "天")
    ∷ (codes "workday", codes "个工作日")
    ∷ (codes "week", codes "周")
    ∷ (codes "month", codes "个月")
    ∷ (codes "year", codes "年")
    ∷ (codes "hour", codes "小时")
    ∷ (codes "minute", codes "分钟")
    ∷ (codes "yuan", codes "元")
    ∷ (codes "period", codes "期")
    ∷ (codes "person", codes "人")
    ∷ (codes "time", codes "次")
    ∷ []

unfoldable pub unit_label : Text → Text
unfolding lookup
unit_label unit = elim (lookup unit unit_labels) [ none ↦ unit | some label ↦ label ]

-- `strings.TrimSuffix(s, "%")`.
unfoldable pub trim_percent : Text → Text
trim_percent [] = []
trim_percent (c ∷ s) =
    let rest = c ∷ trim_percent s in elim s [ [] ↦ if c == 37 then [] else c ∷ [] | d ∷ ds ↦ rest ]

module _ {F : Type 0} where
  unfoldable pub format_value : Property F → Text → Text
  unfolding display unit_label trim_percent text_eq is_empty
  format_value p value =
      let shown = display p.range.labels value in
      if text_eq p.range.type range_percent
      then trim_percent shown ++ codes "%"
      else if text_eq p.range.type range_money
      then shown
        ++ (if is_empty (unit_label p.range.unit) then codes "元" else unit_label p.range.unit)
      else shown ++ unit_label p.range.unit
