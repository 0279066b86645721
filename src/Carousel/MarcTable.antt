-- ===== src/Carousel/MarcTable.antt =====
-- `MarcTable` of client/src/features/records/carousel/marc-table.tsx: the rows of the table and
-- their annotations. `parse_int` is the number that `parseInt` reads at the start of a tag.
use marc_comparator.Base.{
  ℕ, suc, ◌%◌, Bool, true, false, not, ◌&&◌, ◌||◌, Option, none, some, List, [], ◌∷◌, ◌++◌, map,
  filter, find?, ◌==◌, if◌then◌else◌, leb, nat_eqb, present,
}
use marc_comparator.Base.Text.{Text, lit, text_eq}
use marc_comparator.Base.Sets.{includes}
use marc_comparator.Base.Sort.{sort}
use marc_comparator.Records.{VariableField, MarcRecordData, FieldComparisonResult, ValidationResult}

pub data AnnotationType : Type 0 where
  comparison validation : AnnotationType

-- What a row of the table gets, `MarcRowProps` without what is the same for all rows.
pub record Row (S : Type 0) : Type 0 where
  pub tag : Text
  pub ind1 : Option Text
  pub ind2 : Option Text
  pub subfields : List (Text × List Text)
  pub striped : Bool
  pub comparison_annotation : Option (FieldComparisonResult S)
  pub validation_annotations : Option (List ValidationResult)

-- The properties of the component.
pub record MarcTableProps (S : Type 0) : Type 0 where
  pub marc : MarcRecordData
  pub annotation_type : Option AnnotationType
  pub comparison_annotations : Option (List (FieldComparisonResult S))
  pub validation_annotations : Option (List ValidationResult)
  pub target_tags : Option (List Text)

abbrev pub is_comparison : Option AnnotationType → Bool
is_comparison (some comparison) = true
is_comparison _ = false

abbrev pub is_validation : Option AnnotationType → Bool
is_validation (some validation) = true
is_validation _ = false

-- `parseInt(a) - parseInt(b)` is not positive, or not a number.
unfoldable pub tag_le : (Text → Option ℕ) → Text → Text → Bool
tag_le parse_int a b = elim (parse_int a) [
  | none ↦ true
  | some m ↦ elim (parse_int b) [ none ↦ true | some n ↦ leb m n ]
]

abbrev pub wanted : Option (List Text) → Text → Bool
wanted none tag = true
wanted (some tags) tag = includes tags tag

-- The tags of validation results that the record does not have, each once.
unfoldable pub missing_tags : List Text → List Text → List ValidationResult → List Text
missing_tags existing missing [] = missing
missing_tags existing missing (va ∷ vas) =
    missing_tags existing
      (if not (includes existing va.target.tag) && not (includes missing va.target.tag)
        then missing ++ va.target.tag ∷ []
        else missing)
      vas

abbrev pub empty_field : VariableField
empty_field = record { ind1 = none; ind2 = none; subfields = [] }

abbrev index_is : Option ℕ → ℕ → Bool
index_is none i = false
index_is (some j) i = nat_eqb j i

-- The validation results for field `i` of a tag: those of the field, and those of no field where
-- the row stands for a tag that the record does not have.
abbrev pub for_field : Text → Bool → ℕ → ValidationResult → Bool
for_field tag is_missing i v =
    v.target.tag == tag
    && (index_is v.target.field_index i || (is_missing && not (present v.target.field_index)))

abbrev pub for_no_field : Text → ValidationResult → Bool
for_no_field tag v = v.target.tag == tag && not (present v.target.field_index)

abbrev pub select_validations :
    Option (List ValidationResult) → (ValidationResult → Bool) → Option (List ValidationResult)
select_validations none p = none
select_validations (some vs) p = some (filter p vs)

module _ {S : Type 0} (props : MarcTableProps S) where
  unfoldable pub existing_tags : List Text
  existing_tags =
      map (λ e. e.0) props.marc.fixed_fields ++ map (λ e. e.0) props.marc.variable_fields

  unfoldable pub missing_validation_tags : List Text
  unfolding missing_tags
  missing_validation_tags =
      if is_validation props.annotation_type
      then elim props.validation_annotations [
        | none ↦ []
        | some vas ↦ missing_tags existing_tags [] vas
      ]
      else []

  unfoldable pub find_comparison : Text → Option (FieldComparisonResult S)
  find_comparison tag =
      if is_comparison props.annotation_type
      then elim props.comparison_annotations [
        | none ↦ none
        | some cs ↦ find? (λ a. a.tag == tag) cs
      ]
      else none

  unfoldable pub find_validations : (ValidationResult → Bool) → Option (List ValidationResult)
  find_validations p =
      if is_validation props.annotation_type
      then select_validations props.validation_annotations p
      else none

  unfoldable pub fixed_row : Text × Text → Row S
  unfolding find_comparison find_validations
  fixed_row (tag, value) = record {
    tag = tag;
    ind1 = none;
    ind2 = none;
    subfields = (lit "_", value ∷ []) ∷ [];
    striped = false;
    comparison_annotation = find_comparison tag;
    validation_annotations = find_validations (λ v. v.target.tag == tag);
  }

  unfoldable pub field_row : Text → Bool → ℕ → VariableField → Row S
  unfolding find_comparison find_validations
  field_row tag is_missing i field = record {
    tag = tag;
    ind1 = field.ind1;
    ind2 = field.ind2;
    subfields = field.subfields;
    striped = false;
    comparison_annotation = find_comparison tag;
    validation_annotations = find_validations (for_field tag is_missing i);
  }

  unfoldable pub field_rows : Text → Bool → ℕ → List VariableField → List (Row S)
  field_rows tag is_missing i [] = []
  field_rows tag is_missing i (field ∷ fields) =
      field_row tag is_missing i field ∷ field_rows tag is_missing (suc i) fields

  -- The row for the validation results of a tag that are about none of its fields.
  unfoldable pub general_rows : Text → Bool → List (Row S)
  general_rows tag is_missing =
      if is_validation props.annotation_type && not is_missing
      then elim (select_validations props.validation_annotations (for_no_field tag)) [
        | none ↦ []
        | some [] ↦ []
        | some (v ∷ vs) ↦
            record {
              tag = tag;
              ind1 = none;
              ind2 = none;
              subfields = [];
              striped = false;
              comparison_annotation = none;
              validation_annotations = some (v ∷ vs);
            }
            ∷ []
      ]
      else []

  unfoldable pub tag_rows : Text × List VariableField → List (Row S)
  unfolding field_rows field_row general_rows
  tag_rows (tag, fields) =
      let is_missing = not (includes existing_tags tag) in
      field_rows tag is_missing 0 fields ++ general_rows tag is_missing

  unfoldable pub all_tag_rows : List (Text × List VariableField) → List (Row S)
  unfolding tag_rows
  all_tag_rows [] = []
  all_tag_rows (e ∷ es) = tag_rows e ++ all_tag_rows es

-- `rowIndex` counts the rows from 1, and every second one is striped.
unfoldable pub stripe : {S : Type 0} → ℕ → List (Row S) → List (Row S)
stripe i [] = []
stripe i (row ∷ rows) = record row { striped = nat_eqb (i % 2) 0 } ∷ stripe (suc i) rows

module _ (parse_int : Text → Option ℕ) {S : Type 0} (props : MarcTableProps S) where
  unfoldable pub fixed_entries : List (Text × Text)
  fixed_entries =
      filter (λ e. wanted props.target_tags e.0)
        (sort (λ a b. tag_le parse_int a.0 b.0) props.marc.fixed_fields)

  unfoldable pub variable_entries : List (Text × List VariableField)
  unfolding missing_validation_tags
  variable_entries =
      filter (λ e. wanted props.target_tags e.0)
        (sort (λ a b. tag_le parse_int a.0 b.0)
          (props.marc.variable_fields
            ++ map (λ tag. (tag, empty_field ∷ [])) (missing_validation_tags props)))

  unfoldable pub rows : List (Row S)
  unfolding fixed_entries variable_entries stripe
  rows = stripe 1 (map (fixed_row props) fixed_entries ++ all_tag_rows props variable_entries)

  -- The row of the leader, which is not counted.
  unfoldable pub leader_row : Option (Row S)
  leader_row =
      if present props.target_tags
      then none
      else some (record {
        tag = lit "LDR";
        ind1 = none;
        ind2 = none;
        subfields = (lit "_", props.marc.leader ∷ []) ∷ [];
        striped = false;
        comparison_annotation = none;
        validation_annotations = none;
      })
