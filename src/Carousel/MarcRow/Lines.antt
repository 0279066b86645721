-- ===== src/Carousel/MarcRow/Lines.antt =====
-- The lines of a row of the MARC table against its subfields and its comparison.
use marc_comparator.Base.{
  ◌≡◌, refl, ap, Bool, true, false, not, ◌&&◌, Option, none, some, List, [], ◌∷◌, ◌++◌, map, any,
  ◌∙◌, arith, is_empty, if◌then◌else◌, ◌==◌, All, Bool-cases, inl, inr,
}
use marc_comparator.Base.Text.{Text, text_eq}
use marc_comparator.Records.{SubfieldComparisonResult, FieldComparisonResult}
use marc_comparator.Carousel.MarcTable.{Row}
use marc_comparator.Carousel.MarcRow.{
  subfield_rows, later_or, annotation_of, Beside, Layout, aligned, plain, results_of, beside,
  arrange, layout, line_of, drawn,
}

-- The values of all subfields, in the order of the record.
abbrev pub all_values : List (Text × List Text) → List Text
all_values [] = []
all_values ((code, values) ∷ rest) = values ++ all_values rest

-- The values that a record has for a code, and those that lines have beside it.
abbrev pub values_in : Text → List (Text × List Text) → List Text
values_in code [] = []
values_in code ((c, values) ∷ rest) =
    if c == code then values ++ values_in code rest else values_in code rest

abbrev pub values_of : Text → List (Text × Text) → List Text
values_of code [] = []
values_of code ((c, value) ∷ rest) =
    if c == code then value ∷ values_of code rest else values_of code rest

abbrev pub value_of : Text × Text → Text
value_of line = line.1

-- The lines have these values in this order, and each beside its own code.
abbrev pub AreLinesOf : List (Text × List Text) → List (Text × Text) → Type 0
AreLinesOf subfields lines =
    (map value_of lines ≡ all_values subfields)
    × ((code : Text) → values_of code lines ≡ values_in code subfields)

all_values-lines :
    (code : Text) (values : List Text) (lines : List (Text × Text))
    → map value_of (map (λ v. (code, v)) values ++ lines) ≡ values ++ map value_of lines
all_values-lines code [] lines = refl
all_values-lines code (v ∷ vs) lines = ap (λ r. v ∷ r) (all_values-lines code vs lines)

values_of-same :
    (asked code : Text) (values : List Text) (lines : List (Text × Text))
    → (code == asked) ≡ true
    → values_of asked (map (λ v. (code, v)) values ++ lines) ≡ values ++ values_of asked lines
values_of-same asked code [] lines e = refl
values_of-same asked code (v ∷ vs) lines e =
    rw e (ap (λ r. v ∷ r) (values_of-same asked code vs lines e))

values_of-other :
    (asked code : Text) (values : List Text) (lines : List (Text × Text))
    → (code == asked) ≡ false
    → values_of asked (map (λ v. (code, v)) values ++ lines) ≡ values_of asked lines
values_of-other asked code [] lines e = refl
values_of-other asked code (v ∷ vs) lines e = rw e (values_of-other asked code vs lines e)

values_of-lines :
    (asked code : Text) (values : List Text) (lines : List (Text × Text))
    → values_of asked (map (λ v. (code, v)) values ++ lines)
      ≡ (if code == asked then values ++ values_of asked lines else values_of asked lines)
values_of-lines asked code values lines = elim (Bool-cases (code == asked)) [
  | inl e ↦ rw e (values_of-same asked code values lines e)
  | inr e ↦ rw e (values_of-other asked code values lines e)
]

subfield_rows-values :
    (subfields : List (Text × List Text))
    → map value_of (subfield_rows subfields) ≡ all_values subfields
unfolding subfield_rows
subfield_rows-values [] = refl
subfield_rows-values ((code, values) ∷ rest) =
    all_values-lines code values (subfield_rows rest)
    ∙ ap (λ r. values ++ r) (subfield_rows-values rest)

subfield_rows-values_of :
    (asked : Text) (subfields : List (Text × List Text))
    → values_of asked (subfield_rows subfields) ≡ values_in asked subfields
unfolding subfield_rows
subfield_rows-values_of asked [] = refl
subfield_rows-values_of asked ((code, values) ∷ rest) =
    values_of-lines asked code values (subfield_rows rest)
    ∙ ap (λ r. if code == asked then values ++ r else r) (subfield_rows-values_of asked rest)

module _ {S : Type 0} where
  -- The last of the results for a code; there is none where no result has the code.
  abbrev pub IsLast :
      List (SubfieldComparisonResult S) → Text → Option (SubfieldComparisonResult S) → Type 0
  IsLast rs code none = any (λ r. r.code == code) rs ≡ false
  IsLast rs code (some r) =
      (earlier : List (SubfieldComparisonResult S)) × ((later : List (SubfieldComparisonResult S))
        × ((rs ≡ earlier ++ (r ∷ later))
            × (((r.code == code) ≡ true) × (any (λ x. x.code == code) later ≡ false))))

  abbrev pub HasLast :
      List (SubfieldComparisonResult S)
      → (Text × Text) × Option (SubfieldComparisonResult S)
      → Type 0
  HasLast rs (line, found) = IsLast rs line.0 found

  IsLast-later_or :
      (r : SubfieldComparisonResult S) (rs : List (SubfieldComparisonResult S)) (code : Text)
      (found : Option (SubfieldComparisonResult S))
      → IsLast rs code found
      → IsLast (r ∷ rs) code (later_or found (if r.code == code then some r else none))
  unfolding any
  IsLast-later_or r rs code (some x) (earlier, (later, (e, h))) =
      (r ∷ earlier, (later, (ap (λ l. r ∷ l) e, h)))
  IsLast-later_or r rs code none h = elim (Bool-cases (r.code == code)) [
    | inl e ↦ rw e ([], (rs, (refl, (e, h))))
    | inr e ↦ rw e (ground (arith, e, h))
  ]

  IsLast-annotation_of :
      (rs : List (SubfieldComparisonResult S)) (code : Text)
      → IsLast rs code (annotation_of rs code)
  unfolding annotation_of any
  IsLast-annotation_of [] code = refl
  IsLast-annotation_of (r ∷ rs) code =
      IsLast-later_or r rs code (annotation_of rs code) (IsLast-annotation_of rs code)

  -- There is a comparison of the field with results for its subfields.
  abbrev pub has_results : Option (FieldComparisonResult S) → Bool
  has_results none = false
  has_results (some c) = not (is_empty (results_of c.subfield_results))

  -- The lines are aligned with results exactly where the column is shown and there are results; each
  -- line then has the last result for its code.
  abbrev pub IsAnnotated : Bool → Option (FieldComparisonResult S) → Layout S → Type 0
  IsAnnotated show comparison (aligned lines c) =
      ((show && has_results comparison) ≡ true)
      × (comparison ≡ some c)
      × All (HasLast (results_of c.subfield_results)) lines
  IsAnnotated show comparison (plain lines b) = (show && has_results comparison) ≡ false

  drawn-aligned :
      (f : Text × Text → Option (SubfieldComparisonResult S)) (lines : List (Text × Text))
      → map line_of (map (λ line. (line, f line)) lines) ≡ lines
  drawn-aligned f [] = refl
  drawn-aligned f (l ∷ ls) = ap (λ rest. l ∷ rest) (drawn-aligned f ls)

  aligned-IsLast :
      (rs : List (SubfieldComparisonResult S)) (lines : List (Text × Text))
      → All (HasLast rs) (map (λ line. (line, annotation_of rs line.0)) lines)
  aligned-IsLast rs [] = tt
  aligned-IsLast rs (l ∷ ls) = (IsLast-annotation_of rs l.0, aligned-IsLast rs ls)

  drawn-arrange :
      (c : Option (FieldComparisonResult S)) (show : Bool) (lines : List (Text × Text))
      (b : Beside S)
      → (drawn (arrange c show lines b) ≡ lines) × IsAnnotated show c (arrange c show lines b)
  unfolding drawn
  drawn-arrange none show lines b = (refl, ground arith)
  drawn-arrange (some c) show lines b =
      elim (Bool-cases (show && not (is_empty (results_of c.subfield_results)))) [
        | inl e ↦
            let rs = results_of c.subfield_results in
            rw e (
              drawn-aligned (λ line. annotation_of rs line.0) lines,
              (e, refl, aligned-IsLast rs lines),
            )
        | inr e ↦ rw e (refl, e)
      ]

  -- However a row is annotated, its lines have all values of its subfields, in the order of the record,
  -- and each beside its own code. They are aligned with results exactly where the column of the
  -- annotations is shown and the row has a comparison with results for subfields; each line then has
  -- the last result for its code, if there is one.
  pub drawn-layout :
      (show_annotation_column : Bool) (row : Row S)
      → AreLinesOf row.subfields (drawn (layout show_annotation_column row))
        × IsAnnotated show_annotation_column row.comparison_annotation
            (layout show_annotation_column row)
  unfolding layout
  drawn-layout show row =
      let lines = subfield_rows row.subfields in
      let found = drawn-arrange row.comparison_annotation show lines (beside show row) in
      (
        (
          ap (map value_of) found.0 ∙ subfield_rows-values row.subfields,
          λ code. ap (values_of code) found.0 ∙ subfield_rows-values_of code row.subfields,
        ),
        found.1,
      )
