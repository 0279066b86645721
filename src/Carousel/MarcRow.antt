-- ===== src/Carousel/MarcRow.antt =====
-- `MarcRow` of client/src/features/records/carousel/marc-table.tsx: the lines of a row of the table and
-- the annotations beside them.
pub mod Lines
use marc_comparator.Base.{
  ℕ, ◌≡◌, refl, ap, Bool, true, false, not, ◌&&◌, Option, none, some, List, [], ◌∷◌, ◌++◌, map,
  is_empty, if◌then◌else◌, ◌==◌, leb, All, Bool-cases, inl, inr,
}
use marc_comparator.Base.Text.{Text, lit, text_eq}
use marc_comparator.Base.Sort.{sort}
use marc_comparator.Records.{SubfieldComparisonResult, FieldComparisonResult, ValidationResult}
use marc_comparator.Carousel.MarcTable.{Row}

-- The lines of the subfields: one for each value of each code.
unfoldable pub subfield_rows : List (Text × List Text) → List (Text × Text)
subfield_rows [] = []
subfield_rows ((code, values) ∷ rest) = map (λ v. (code, v)) values ++ subfield_rows rest

-- `subfieldAnnotationMap.get(code)`: of two results for a code the last one counts.
abbrev pub later_or {ℓ} : {A : Type ℓ} → Option A → Option A → Option A
later_or none earlier = earlier
later_or (some later) earlier = some later

unfoldable pub annotation_of :
    {S : Type 0} → List (SubfieldComparisonResult S) → Text → Option (SubfieldComparisonResult S)
annotation_of [] code = none
annotation_of (r ∷ rs) code =
    later_or (annotation_of rs code) (if r.code == code then some r else none)

-- `VALIDATION_STATUS_ORDER[status] ?? 99`.
unfoldable pub validation_status_order : Text → ℕ
validation_status_order status =
    if status == lit "Valid"
    then 0
    else if status == lit "ForReview"
    then 1
    else if status == lit "Invalid"
    then 2
    else if status == lit "AdditionalInfo"
    then 3
    else 99

unfoldable pub sort_by_status : List ValidationResult → List ValidationResult
unfolding validation_status_order
sort_by_status rs =
    sort (λ a b. leb (validation_status_order a.status) (validation_status_order b.status)) rs

-- What stands beside the subfields of a row that is not aligned.
pub data Beside (S : Type 0) : Type 0 where
  no_column : Beside S
  compared : FieldComparisonResult S → Beside S
  validated : List ValidationResult → Beside S
  empty_column : Beside S

-- The row as it is drawn: each line with its own annotation, or the lines beside one annotation.
pub data Layout (S : Type 0) : Type 0 where
  aligned :
      List ((Text × Text) × Option (SubfieldComparisonResult S))
      → FieldComparisonResult S
      → Layout S
  plain : List (Text × Text) → Beside S → Layout S

module _ {S : Type 0} where
  abbrev pub results_of :
      Option (List (SubfieldComparisonResult S)) → List (SubfieldComparisonResult S)
  results_of none = []
  results_of (some rs) = rs

  unfoldable pub beside : Bool → Row S → Beside S
  unfolding sort_by_status
  beside false row = no_column
  beside true row = elim row.comparison_annotation [
    | some c ↦ compared c
    | none ↦ elim row.validation_annotations [
      | none ↦ empty_column
      | some [] ↦ empty_column
      | some (v ∷ vs) ↦ validated (sort_by_status (v ∷ vs))
    ]
  ]

  abbrev pub arrange :
      Option (FieldComparisonResult S) → Bool → List (Text × Text) → Beside S → Layout S
  arrange none show lines next_to = plain lines next_to
  arrange (some c) show lines next_to =
      if show && not (is_empty (results_of c.subfield_results))
      then aligned
          (map (λ line. (line, annotation_of (results_of c.subfield_results) line.0)) lines) c
      else plain lines next_to

  unfoldable pub layout : Bool → Row S → Layout S
  unfolding subfield_rows annotation_of beside
  layout show_annotation_column row =
      arrange row.comparison_annotation show_annotation_column (subfield_rows row.subfields)
        (beside show_annotation_column row)

  abbrev pub line_of : (Text × Text) × Option (SubfieldComparisonResult S) → Text × Text
  line_of l = l.0

  -- The lines that are drawn.
  unfoldable pub drawn : Layout S → List (Text × Text)
  drawn (aligned lines c) = map line_of lines
  drawn (plain lines b) = lines
