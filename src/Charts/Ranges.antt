-- ===== src/Charts/Ranges.antt =====
-- client/src/features/records/plots/score-range-inputs.tsx: the two inputs for a range of scores in
-- percent. The numbers are a parameter, with the order on them.

use mathlib.Core.Path.{subst}
use marc_comparator.Base.{
  ◌≡◌, refl, ap, ◌∙◌, Bool, true, inl, inr, Option, none, some, List, [], ◌∷◌, if◌then◌else◌, ◌==◌,
  Bool-cases, ◌>>=◌,
}
use marc_comparator.Base.Text.{Text, lit, text_eq}

-- The numbers that are not NaN, with their order, 0, 1 and 100, and the division by 100. What is
-- relied on of the division holds of floating-point numbers: it keeps the order, and is exact at 0
-- and at 100.
pub record Numbers (N : Type 0) : Type 0 where
  pub number_zero : N
  pub number_one : N
  pub hundred_percent : N
  pub le : N → N → Bool
  pub div_hundred : N → N
  pub le_refl : (a : N) → le a a ≡ true
  pub zero-le-hundred : le number_zero hundred_percent ≡ true
  pub le_trans : (a b c : N) → le a b ≡ true → le b c ≡ true → le a c ≡ true
  pub div_hundred-le : (a b : N) → le a b ≡ true → le (div_hundred a) (div_hundred b) ≡ true
  pub div_hundred-zero : div_hundred number_zero ≡ number_zero
  pub div_hundred-hundred : div_hundred hundred_percent ≡ number_one

-- What `handleSubmit` writes into the two inputs, in percent, and what it hands on, as scores.
pub record Submitted (N : Type 0) : Type 0 where
  pub written : N × N
  pub handed_on : N × N

module _ {N : Type 0} (numbers : Numbers N) where
  abbrev pub min_of : N → N → N
  min_of a b = if numbers.le a b then a else b

  abbrev pub max_of : N → N → N
  max_of a b = if numbers.le a b then b else a

  abbrev pub clamped_min : N → N
  clamped_min raw = max_of numbers.number_zero (min_of raw numbers.hundred_percent)

  abbrev pub clamped_max : N → N → N
  clamped_max low raw = max_of low (min_of raw numbers.hundred_percent)

  -- `handleSubmit`, which does nothing where an input has no number.
  unfoldable pub handle_submit : Option N → Option N → Option (Submitted N)
  handle_submit raw_min raw_max = do
    min_value ← raw_min
    max_value ← raw_max
    let low = clamped_min min_value
    let high = clamped_max low max_value
    some (record {
      written = (low, high);
      handed_on = (numbers.div_hundred low, numbers.div_hundred high);
    })

  -- The numbers that the inputs have after a submission are submitted.
  abbrev pub submit_again : Option N → Option N → Option (Submitted N) → Option (Submitted N)
  unfolding handle_submit
  submit_again raw_min raw_max none = handle_submit raw_min raw_max
  submit_again raw_min raw_max (some s) = handle_submit (some s.written.0) (some s.written.1)

  -- The key "Enter" submits and leaves the input, which submits again.
  unfoldable pub handle_key_down : Text → Option N → Option N → List (Option (Submitted N))
  unfolding handle_submit
  handle_key_down key raw_min raw_max =
      if key == lit "Enter"
      then handle_submit raw_min raw_max
        ∷ submit_again raw_min raw_max (handle_submit raw_min raw_max)
        ∷ []
      else []

  -- What an order gives for the smaller and the larger of two numbers.
  le-max_right : (a b : N) → numbers.le a (max_of a b) ≡ true
  le-max_right a b = elim (Bool-cases (numbers.le a b)) [
    | inl e ↦ rw (e, e) refl
    | inr e ↦ rw e (numbers.le_refl a)
  ]

  min_of-le_right : (a b : N) → numbers.le (min_of a b) b ≡ true
  min_of-le_right a b = elim (Bool-cases (numbers.le a b)) [
    | inl e ↦ rw (e, e) refl
    | inr e ↦ rw e (numbers.le_refl b)
  ]

  max_of-le :
      (a b c : N) → numbers.le a c ≡ true → numbers.le b c ≡ true → numbers.le (max_of a b) c ≡ true
  max_of-le a b c h k = elim (Bool-cases (numbers.le a b)) [ inl e ↦ rw e k | inr e ↦ rw e h ]

  clamped_min-le : (raw : N) → numbers.le (clamped_min raw) numbers.hundred_percent ≡ true
  clamped_min-le raw =
      max_of-le numbers.number_zero (min_of raw numbers.hundred_percent) numbers.hundred_percent
        numbers.zero-le-hundred (min_of-le_right raw numbers.hundred_percent)

  -- Numbers that are in order and within 0 and 100 are written as they are.
  max_of-same : (a b : N) → numbers.le a b ≡ true → max_of a b ≡ b
  max_of-same a b h = rw h refl

  min_of-same : (a b : N) → numbers.le a b ≡ true → min_of a b ≡ a
  min_of-same a b h = rw h refl

  clamped_min-same :
      (a : N)
      → numbers.le numbers.number_zero a ≡ true
      → numbers.le a numbers.hundred_percent ≡ true
      → clamped_min a ≡ a
  clamped_min-same a low high =
      ap (max_of numbers.number_zero) (min_of-same a numbers.hundred_percent high)
      ∙ max_of-same numbers.number_zero a low

  clamped_max-same :
      (a b : N)
      → numbers.le a b ≡ true
      → numbers.le b numbers.hundred_percent ≡ true
      → clamped_max a b ≡ b
  clamped_max-same a b order high =
      ap (max_of a) (min_of-same b numbers.hundred_percent high) ∙ max_of-same a b order

-- A range in order, within 0 and a largest number.
abbrev pub IsRange : {N : Type 0} (numbers : Numbers N) → N → N × N → Type 0
IsRange numbers top (low, high) =
    (numbers.le numbers.number_zero low ≡ true)
    × (numbers.le low high ≡ true)
    × (numbers.le high top ≡ true)

-- The percents that the inputs have stay as they are where they are a range.
abbrev pub IsKept : {N : Type 0} (numbers : Numbers N) → N × N → Submitted N → Type 0
IsKept numbers (raw_min, raw_max) s =
    IsRange numbers numbers.hundred_percent (raw_min, raw_max) → s.written ≡ (raw_min, raw_max)

module _ {N : Type 0} (numbers : Numbers N) (raw_min raw_max : N) where
  abbrev low_percent : N
  low_percent = clamped_min numbers raw_min

  abbrev high_percent : N
  high_percent = clamped_max numbers low_percent raw_max

  written-IsRange : IsRange numbers numbers.hundred_percent (low_percent, high_percent)
  written-IsRange =
      let top = numbers.hundred_percent in
      (
        le-max_right numbers numbers.number_zero (min_of numbers raw_min top),
        le-max_right numbers low_percent (min_of numbers raw_max top),
        max_of-le numbers low_percent (min_of numbers raw_max top) top
            (clamped_min-le numbers raw_min) (min_of-le_right numbers raw_max top),
      )

  handed_on-IsRange :
      IsRange numbers numbers.number_one
        (numbers.div_hundred low_percent, numbers.div_hundred high_percent)
  handed_on-IsRange =
      let found = written-IsRange in
      (
        subst (λ z. numbers.le z (numbers.div_hundred low_percent) ≡ true) numbers.div_hundred-zero
            (numbers.div_hundred-le numbers.number_zero low_percent found.0),
        numbers.div_hundred-le low_percent high_percent found.1,
        subst (λ z. numbers.le (numbers.div_hundred high_percent) z ≡ true)
            numbers.div_hundred-hundred
            (numbers.div_hundred-le high_percent numbers.hundred_percent found.2),
      )

  written-IsKept :
      IsRange numbers numbers.hundred_percent (raw_min, raw_max)
      → ◌≡◌ {A = N × N} (low_percent, high_percent) (raw_min, raw_max)
  written-IsKept h =
      let low : low_percent ≡ raw_min =
        clamped_min-same numbers raw_min h.0
          (numbers.le_trans raw_min raw_max numbers.hundred_percent h.1 h.2) in
      let high : high_percent ≡ raw_max =
        ap (λ a. clamped_max numbers a raw_max) low
        ∙ clamped_max-same numbers raw_min raw_max h.1 h.2 in
      λ i. (low i, high i)

-- Whatever two numbers the inputs have: they are submitted, and the inputs then have percents in order
-- and within 0 and 100, the numbers they had where these are such percents. What is handed on are the
-- percents divided by 100, and is in order and within 0 and 1.
pub handle_submit-IsRange :
    {N : Type 0} (numbers : Numbers N) (raw_min raw_max : N)
    → (s : Submitted N) × (handle_submit numbers (some raw_min) (some raw_max) ≡ some s)
      × IsRange numbers numbers.hundred_percent s.written
      × IsKept numbers (raw_min, raw_max) s
      × (s.handed_on ≡ (numbers.div_hundred s.written.0, numbers.div_hundred s.written.1))
      × IsRange numbers numbers.number_one s.handed_on
unfolding handle_submit
handle_submit-IsRange numbers raw_min raw_max = (
  _,
  refl,
  written-IsRange numbers raw_min raw_max,
  written-IsKept numbers raw_min raw_max,
  refl,
  handed_on-IsRange numbers raw_min raw_max,
)
