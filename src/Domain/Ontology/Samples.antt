-- ===== src/Domain/Ontology/Samples.antt =====
-- An ontology of a shop, for tests.
use lurus_unica.Common.{ℕ, ◌*◌, true, Option, none, some, List, [], ◌∷◌, pos}
use lurus_unica.Common.Floats.{fixed}
use lurus_unica.Common.Text.{Text, codes}
use lurus_unica.Domain.Violation.{Violation}
use lurus_unica.Domain.Ontology.Types.{OntologyClass, Property, Ontology}
use lurus_unica.Domain.Ontology.Values.{digits}

unfoldable pub parse_thousandths : Text → Option ℕ
unfolding digits
parse_thousandths t = elim (digits t) [ none ↦ none | some n ↦ some (n * 1000) ]

-- The message of a violation is the property that it names.
abbrev pub wording : Violation → Text
wording v = v.property

abbrev pub return_days : Property ℕ
return_days = record {
  label = codes "退货期限";
  domain = codes "商品";
  range = record {
    type = codes "integer";
    unit = codes "day";
    min = some 1000;
    max = some 30000;
    values = [];
    labels = [];
  };
  functional = true;
  min_cardinality = pos 1;
  requires = [];
}

abbrev pub goods : List (Text × OntologyClass)
goods =
    (codes "商品", record { label = codes "商品"; subclass_of = [] })
    ∷ (codes "手机", record { label = codes "手机"; subclass_of = codes "商品" })
    ∷ []

abbrev pub shop : Ontology fixed.Float
shop = record {
  product_line = codes "数码店";
  closed_world = none;
  classes = goods;
  dimensions = [];
  disjoint = [];
  properties = (codes "days", return_days) ∷ [];
  assertions =
      record { class = codes "商品"; scope = []; values = (codes "days", codes "15" ∷ []) ∷ [] }
      ∷ record { class = codes "手机"; scope = []; values = (codes "days", codes "7" ∷ []) ∷ [] }
      ∷ [];
  denials = record { term = codes "货到付款"; note = [] } ∷ [];
}
