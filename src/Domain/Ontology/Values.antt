-- ===== src/Domain/Ontology/Values.antt =====
-- `CheckValue` of unica/pkg/domain/ontology.go. `parse_float` is `strconv.ParseFloat`.
use lurus_unica.Common.{
  ℕ, ◌+◌, ◌-◌, ◌*◌, ◌%◌, Bool, true, false, not, ◌&&◌, ◌||◌, Option, none, some, [], ◌∷◌, length,
  take, drop, leb, ltb, ◌==◌, if◌then◌else◌, ℤ, pos, ◌-ℤ◌,
}
use lurus_unica.Common.Floats.{Floats}
use lurus_unica.Common.Text.{Text, codes, trim_space, is_empty, text_eq}
use lurus_unica.Domain.Ontology.Types.{Range, Property, contains_fold, canonical_label}

abbrev pub range_integer : Text
range_integer = codes "integer"

abbrev pub range_decimal : Text
range_decimal = codes "decimal"

abbrev pub range_percent : Text
range_percent = codes "percent"

abbrev pub range_money : Text
range_money = codes "money"

abbrev pub range_date : Text
range_date = codes "date"

abbrev pub range_enum : Text
range_enum = codes "enum"

abbrev pub range_string : Text
range_string = codes "string"

pub data ValueError : Type 0 where
  not_permitted not_an_integer not_a_number not_a_percentage : ValueError
  negative_percentage above_hundred below_minimum above_maximum : ValueError
  not_a_date enum_without_values unknown_type : ValueError

unfoldable pub is_digit : ℕ → Bool
is_digit c = leb 48 c && leb c 57

abbrev is_sign : ℕ → Bool
is_sign c = c == 45 || c == 43

-- The digits and dots at the start of a text.
unfoldable pub number_prefix : Text → Text
unfolding is_digit
number_prefix [] = []
number_prefix (c ∷ s) = let rest = number_prefix s in if is_digit c || c == 46 then c ∷ rest else []

unfoldable pub number_part : Text → Text
unfolding number_prefix
number_part [] = []
number_part (c ∷ s) = if is_sign c then c ∷ number_prefix s else number_prefix (c ∷ s)

unfoldable pub numeric_part : Text → Text
unfolding number_part is_empty
numeric_part value =
    let trimmed = trim_space value in
    if is_empty (number_part trimmed) then trimmed else number_part trimmed

-- The number of a text of digits, if it is one.
unfoldable pub digits_from : ℕ → Text → Option ℕ
unfolding is_digit
digits_from n [] = some n
digits_from n (c ∷ s) =
    let rest = digits_from (10 * n + (c - 48)) s in if is_digit c then rest else none

unfoldable pub digits : Text → Option ℕ
unfolding digits_from
digits [] = none
digits (c ∷ s) = digits_from 0 (c ∷ s)

-- `strconv.Atoi` on 64 bits.
unfoldable pub atoi : Text → Option ℤ
unfolding digits
atoi [] = none
atoi (c ∷ s) =
    if c == 45
    then elim (digits s) [
      | none ↦ none
      | some n ↦ if ltb 9_223_372_036_854_775_808 n then none else some (pos 0 -ℤ pos n)
    ]
    else elim (digits (if c == 43 then s else c ∷ s)) [
      | none ↦ none
      | some n ↦ if ltb 9_223_372_036_854_775_807 n then none else some (pos n)
    ]

abbrev is_leap : ℕ → Bool
is_leap y = y % 4 == 0 && (not (y % 100 == 0) || y % 400 == 0)

unfoldable pub days_in : ℕ → ℕ → ℕ
days_in month year =
    if month == 2
    then if is_leap year then 29 else 28
    else if month == 4 || (month == 6 || (month == 9 || month == 11))
    then 30
    else 31

abbrev number_or_zero : Option ℕ → ℕ
number_or_zero none = 0
number_or_zero (some n) = n

abbrev is_number : Option ℕ → Bool
is_number none = false
is_number (some n) = true

-- `time.Parse("2006-01-02", …)`.
unfoldable pub is_date : Text → Bool
unfolding digits days_in text_eq
is_date s =
    let year = digits (take 4 s) in
    let month = digits (take 2 (drop 5 s)) in
    let day = digits (take 2 (drop 8 s)) in
    let m = number_or_zero month in
    let n = number_or_zero day in
    length s == 10
    && (text_eq (take 1 (drop 4 s)) (codes "-") && text_eq (take 1 (drop 7 s)) (codes "-"))
    && (is_number year && is_number month && is_number day)
    && (leb 1 m && leb m 12)
    && (leb 1 n && leb n (days_in m (number_or_zero year)))

module _ (fl : Floats) where
  open fl use {Float, of_int, of_signed, lt}

  unfoldable pub check_bounds : Range Float → Float → Option ValueError
  check_bounds r n =
      if elim r.min [ none ↦ false | some lo ↦ lt n lo ]
      then some below_minimum
      else if elim r.max [ none ↦ false | some hi ↦ lt hi n ]
      then some above_maximum
      else none

  -- The bounds of a percentage that has none of its own.
  unfoldable pub check_percent : Range Float → Float → Option ValueError
  unfolding check_bounds
  check_percent r n =
      if elim r.min [ none ↦ lt n (of_int 0) | some lo ↦ false ]
      then some negative_percentage
      else if elim r.max [ none ↦ lt (of_int 100) n | some hi ↦ false ]
      then some above_hundred
      else check_bounds r n

  module _ (fold : ℕ → ℕ) (parse_float : Text → Option Float) where
    -- The switch of `CheckValue`, for a canonical value.
    unfoldable pub check_type : Property Float → Text → Option ValueError
    unfolding text_eq atoi check_bounds check_percent is_date is_empty numeric_part
    check_type prop value =
        let type = prop.range.type in
        if text_eq type range_integer
        then elim (atoi (numeric_part value)) [
          | none ↦ some not_an_integer
          | some n ↦ check_bounds prop.range (of_signed n)
        ]
        else if text_eq type range_decimal || text_eq type range_money
        then elim (parse_float (numeric_part value)) [
          | none ↦ some not_a_number
          | some n ↦ check_bounds prop.range n
        ]
        else if text_eq type range_percent
        then elim (parse_float (numeric_part value)) [
          | none ↦ some not_a_percentage
          | some n ↦ check_percent prop.range n
        ]
        else if text_eq type range_date
        then if is_date (trim_space value) then none else some not_a_date
        else if text_eq type range_enum
        then if length prop.range.values == 0 then some enum_without_values else none
        else if text_eq type range_string || is_empty type
        then none
        else some unknown_type

    unfoldable pub check_value : Property Float → Text → Option ValueError
    unfolding canonical_label contains_fold check_type
    check_value prop value =
        let v = canonical_label fold prop.range.labels value in
        if ltb 0 (length prop.range.values) && not (contains_fold fold prop.range.values v)
        then some not_permitted
        else check_type prop v
