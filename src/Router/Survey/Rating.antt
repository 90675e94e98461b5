-- ===== src/Router/Survey/Rating.antt =====
-- The ratings of unica/router/internal/survey/handler.go: the replies that `HandleSurveyReply` reads as a
-- number from 1 to 5.
use lurus_unica.Common.{
  ℕ, zero, suc, ◌+◌, ◌-◌, ◌*◌, ◌≤◌, ◌<◌, Bool, true, false, ◌&&◌, ◌||◌, some, [], ◌∷◌, ◌==◌, ==_iff,
  arith, tests, ◌≡◌, ◌↔◌, subst, ◌∙◌, inl, inr, Bool-cases, Option-cases, if◌then◌else◌, ℤ, pos,
  ◌-ℤ◌, ltb_ℤ,
}
use lurus_unica.Common.Text.{Text, trim_space}
use lurus_unica.Domain.Ontology.Values.{is_digit, digits_from, digits, atoi}
use lurus_unica.Router.Survey.{parse_rating}

-- A digit, after any number of zeros.
unfoldable pub spells : ℕ → Text → Bool
spells k [] = false
spells k (c ∷ []) = c == 48 + k
spells k (c ∷ d ∷ s) = c == 48 && spells k (d ∷ s)

-- A plus sign may stand before.
unfoldable pub spells_signed : ℕ → Text → Bool
unfolding spells
spells_signed k [] = false
spells_signed k (c ∷ s) = if c == 43 then spells k s else spells k (c ∷ s)

digits_from-le : (n : ℕ) (s : Text) (v : ℕ) → digits_from n s ≡ some v → n ≤ v
unfolding digits_from
digits_from-le n [] v h = ground arith
digits_from-le n (c ∷ s) v h = elim (Bool-cases (is_digit c)) [
  | inl t ↦
      let l : 10 * n + (c - 48) ≤ v = digits_from-le (10 * n + (c - 48)) s v (ground arith) in
      omega arith
  | inr f ↦ ground arith
]

digit_bounds : (c : ℕ) → is_digit c ≡ true → (48 ≤ c) × (c ≤ 57)
unfolding is_digit
digit_bounds c h = (grind tests, grind tests)

digits_from-ten : (n c : ℕ) (s : Text) (v : ℕ) → digits_from n (c ∷ s) ≡ some v → 10 * n ≤ v
unfolding digits_from
digits_from-ten n c s v h = elim (Bool-cases (is_digit c)) [
  | inl t ↦
      let l : 10 * n + (c - 48) ≤ v = digits_from-le (10 * n + (c - 48)) s v (ground arith) in
      omega arith
  | inr f ↦ ground arith
]

first_digit :
    (n c : ℕ) (s : Text) (v : ℕ)
    → digits_from n (c ∷ s) ≡ some v
    → (48 ≤ c) × (c ≤ 57) × (digits_from (10 * n + (c - 48)) s ≡ some v)
unfolding digits_from
first_digit n c s v h = elim (Bool-cases (is_digit c)) [
  | inl t ↦ let b = digit_bounds c t in (b.0, b.1, ground arith)
  | inr f ↦ ground arith
]

-- A number below 10 is spelled by zeros and its digit.
small-spells : (s : Text) (v : ℕ) → digits s ≡ some v → v < 10 → spells v s ≡ true
unfolding digits digits_from spells
small-spells [] v h l = ground arith
small-spells (c ∷ []) v h l =
    let (a, b, q) = first_digit 0 c [] v h in ground (arith, ==_iff c (48 + v))
small-spells (c ∷ d ∷ s) v h l =
    let (a, b, q) = first_digit 0 c (d ∷ s) v h in
    let ten = digits_from-ten (10 * 0 + (c - 48)) d s v q in
    let z : c ≡ 48 = omega arith in
    let same : 10 * 0 + (c - 48) ≡ 0 = omega arith in
    ground (
      arith,
      ==_iff c 48,
      small-spells (d ∷ s) v (subst (λ n. digits_from n (d ∷ s) ≡ some v) same q) l,
    )

a_digit : (c : ℕ) → 48 ≤ c → c ≤ 57 → is_digit c ≡ true
unfolding is_digit
a_digit c a b = grind tests

digits_from-step :
    (n m c : ℕ) (s : Text)
    → 48 ≤ c
    → c ≤ 57
    → 10 * n + (c - 48) ≡ m
    → digits_from n (c ∷ s) ≡ digits_from m s
unfolding digits_from
digits_from-step n m c s a b e =
    let t = a_digit c a b in subst (λ x. digits_from n (c ∷ s) ≡ digits_from x s) e (ground arith)

zeros-digits : (s : Text) (v : ℕ) → v < 10 → spells v s ≡ true → digits s ≡ some v
unfolding digits digits_from spells
zeros-digits [] v l h = ground arith
zeros-digits (c ∷ []) v l h =
    let e : c ≡ 48 + v = ground (arith, ==_iff c (48 + v)) in
    digits_from-step 0 v c [] (omega arith) (omega arith) (omega arith)
zeros-digits (c ∷ d ∷ s) v l h =
    let e : c ≡ 48 = ground (arith, ==_iff c 48) in
    digits_from-step 0 0 c (d ∷ s) (omega arith) (omega arith) (omega arith)
    ∙ zeros-digits (d ∷ s) v l (ground arith)

negative-none : (n k : ℕ) → pos 0 -ℤ pos n ≡ pos k → k ≡ 0
unfolding ◌-ℤ◌
negative-none zero k h = ground arith
negative-none (suc n) k h = ground arith

atoi-spells : (t : Text) (k : ℕ) → 1 ≤ k → k < 10 → atoi t ≡ some (pos k) → spells_signed k t ≡ true
unfolding atoi spells_signed
atoi-spells [] k a b h = ground arith
atoi-spells (c ∷ s) k a b h = elim (Bool-cases (c == 45)) [
  | inl m ↦ elim (Option-cases (digits s)) [
    | inl p ↦ ground arith
    | inr (n, p) ↦
        let q : pos 0 -ℤ pos n ≡ pos k = ground arith in let z = negative-none n k q in ground arith
  ]
  | inr m ↦ elim (Bool-cases (c == 43)) [
    | inl t ↦ elim (Option-cases (digits s)) [
      | inl p ↦ ground arith
      | inr (n, p) ↦ let q : n ≡ k = ground arith in ground (arith, small-spells s n p)
    ]
    | inr t ↦ elim (Option-cases (digits (c ∷ s))) [
      | inl p ↦ ground arith
      | inr (n, p) ↦ let q : n ≡ k = ground arith in ground (arith, small-spells (c ∷ s) n p)
    ]
  ]
]

spells-head : (c : ℕ) (s : Text) (k : ℕ) → spells k (c ∷ s) ≡ true → 48 ≤ c
unfolding spells
spells-head c [] k h = let e : c ≡ 48 + k = ground (arith, ==_iff c (48 + k)) in omega arith
spells-head c (d ∷ s) k h = let e : c ≡ 48 = ground (arith, ==_iff c 48) in omega arith

spells-atoi : (t : Text) (k : ℕ) → k < 10 → spells_signed k t ≡ true → atoi t ≡ some (pos k)
unfolding atoi spells_signed
spells-atoi [] k b h = ground arith
spells-atoi (c ∷ s) k b h = elim (Bool-cases (c == 43)) [
  | inl t ↦ let p = zeros-digits s k b (ground arith) in ground (arith, ==_iff c 43)
  | inr t ↦
      let g : spells k (c ∷ s) ≡ true = ground arith in
      let l = spells-head c s k g in
      let p = zeros-digits (c ∷ s) k b g in let m : (c == 45) ≡ false = ground arith in ground arith
]

abbrev is_out : ℤ → Bool
is_out z = ltb_ℤ z (pos 1) || ltb_ℤ (pos 5) z

not_out : (k : ℕ) → is_out (pos k) ≡ false → (1 ≤ k) × (k ≤ 5)
not_out k h = (ground arith, ground arith)

out_not : (k : ℕ) → 1 ≤ k → k ≤ 5 → is_out (pos k) ≡ false
out_not k a b = ground arith

in_range :
    (m : Text) (k : ℕ)
    → parse_rating m ≡ some (pos k)
    → (1 ≤ k) × (k ≤ 5) × (atoi (trim_space m) ≡ some (pos k))
unfolding parse_rating
in_range m k h = elim (Option-cases (atoi (trim_space m))) [
  | inl p ↦ ground arith
  | inr (z, p) ↦ elim (Bool-cases (ltb_ℤ z (pos 1) || ltb_ℤ (pos 5) z)) [
    | inl t ↦ ground arith
    | inr f ↦
        let e : z ≡ pos k = ground arith in
        let (a, b) = not_out k (subst (λ x. is_out x ≡ false) e f) in (a, b, ground arith)
  ]
]

-- A reply is read as a rating from 1 to 5 exactly where its trimmed text spells that digit, after any
-- zeros and at most one plus sign.
pub parse_rating_iff :
    (message : Text) (k : ℕ)
    → (parse_rating message ≡ some (pos k))
      ↔ ((1 ≤ k) × (k ≤ 5) × (spells_signed k (trim_space message) ≡ true))
unfolding parse_rating
parse_rating_iff message k = (
  λ h.
      let (a, b, p) = in_range message k h in
      (a, b, atoi-spells (trim_space message) k a (omega arith) p),
  λ (a, b, s).
      let p = spells-atoi (trim_space message) k (omega arith) s in
      let o = out_not k a b in ground arith,
)
