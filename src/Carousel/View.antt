-- ===== src/Carousel/View.antt =====
-- `isViewAvailable` and the component `RecordDetail` of
-- client/src/features/records/carousel/carousel-view.tsx: the effect that keeps the selected view
-- when the record changes, and what the component derives for the table.
pub mod Available
use marc_comparator.Base.{
  ◌≡◌, Bool, true, false, not, ◌&&◌, ◌||◌, Option, none, some, List, [], ◌∷◌, ◌++◌, map, filter,
  any, all, find?, is_empty, length, or_else, present, ◌==◌, if◌then◌else◌, ◌>>=◌,
}
use marc_comparator.Base.Text.{Text, lit, text_eq, truthy}
use marc_comparator.Base.Sets.{add_all, distinct}
use marc_comparator.Records.{
  AuthorityLinkSummary, RecordSummary, ComparisonDetail, ValidationDetail, FieldComparisonResult,
  ValidationResult, MarcRecordData, ReviewDetail,
}
use marc_comparator.Carousel.MarcTable.{AnnotationType}
use marc_comparator.Carousel.Key.{
  ViewOption, marc, authority, comparison, validation, parse_view_key, build_authority_key,
  build_comparison_key, build_validation_key,
}

-- A list that the server may not have answered yet, as a condition and as a list.
abbrev pub any_loaded {ℓ} : {A : Type ℓ} → (A → Bool) → Option (List A) → Bool
any_loaded p none = false
any_loaded p (some xs) = any p xs

abbrev pub find_loaded {ℓ} : {A : Type ℓ} → (A → Bool) → Option (List A) → Option A
find_loaded p none = none
find_loaded p (some xs) = find? p xs

abbrev pub filter_loaded {ℓ} : {A : Type ℓ} → (A → Bool) → Option (List A) → Option (List A)
filter_loaded p none = none
filter_loaded p (some xs) = some (filter p xs)

abbrev pub link_key : AuthorityLinkSummary → Text
link_key al = build_authority_key al.base al.authority_record_id

abbrev pub is_comparison : {S : Type 0} → Text → Text → ComparisonDetail S → Bool
is_comparison comparator other c = c.comparator == comparator && c.other_record_id == other

module _ {S : Type 0} where
  -- The `switch` of `isViewAvailable`.
  unfoldable pub option_available :
      Text
      → RecordSummary S
      → Option (List (ComparisonDetail S))
      → Option (List ValidationDetail)
      → ViewOption
      → Bool
  option_available key r comparisons validations marc = true
  option_available key r comparisons validations (authority base system_number) =
      any (λ al. link_key al == key) r.authority_links
  option_available key r comparisons validations (comparison comparator other) =
      any_loaded (is_comparison comparator other) comparisons
  option_available key r comparisons validations (validation name) =
      any_loaded (λ v. v.validator == name) validations

  unfoldable pub is_view_available :
      Text
      → RecordSummary S
      → Option (List (ComparisonDetail S))
      → Option (List ValidationDetail)
      → Bool
  unfolding option_available
  is_view_available key r comparisons validations =
      if key == lit "marc"
      then true
      else option_available key r comparisons validations (parse_view_key key)

  -- The view that takes the place of one that the new record does not have.
  unfoldable pub matching_view :
      RecordSummary S → Option (List (ComparisonDetail S)) → ViewOption → Text
  matching_view r comparisons (authority base system_number) =
      elim (find? (λ al. al.base == base) r.authority_links) [
        | some al ↦ link_key al
        | none ↦ lit "marc"
      ]
  matching_view r comparisons (comparison comparator other) =
      elim (find_loaded (λ c. c.comparator == comparator) comparisons) [
        | some c ↦ build_comparison_key c.comparator c.other_record_id
        | none ↦ lit "marc"
      ]
  matching_view r comparisons _ = lit "marc"

-- What the effect reads and writes: the record that it saw last, and the selected view.
pub record Selection : Type 0 where
  pub prev_record_id : Text
  pub selected_view : Text

-- The effect on a change of the record. `fetching` tells that the comparisons or the validations
-- are being fetched.
unfoldable pub on_record_change :
    {S : Type 0}
    → RecordSummary S
    → Option (List (ComparisonDetail S))
    → Option (List ValidationDetail)
    → Bool
    → Selection
    → Selection
on_record_change r comparisons validations fetching s =
    if r.id == s.prev_record_id
    then s
    else if fetching
    then s
    else if not (s.selected_view == lit "marc")
        && not (is_view_available s.selected_view r comparisons validations)
    then record {
      prev_record_id = r.id;
      selected_view = matching_view r comparisons (parse_view_key s.selected_view);
    }
    else record s { prev_record_id = r.id }

-- What the component hands to the table, apart from the record.
pub record Annotations (S : Type 0) : Type 0 where
  pub annotation_type : Option AnnotationType
  pub comparison_annotations : Option (List (FieldComparisonResult S))
  pub validation_annotations : Option (List ValidationResult)

abbrev pub no_annotations : {S : Type 0} → Annotations S
no_annotations = record {
  annotation_type = none;
  comparison_annotations = none;
  validation_annotations = none;
}

module _ {S : Type 0} where
  unfoldable pub annotations :
      Option (List (ComparisonDetail S))
      → Option (List ValidationDetail)
      → ViewOption
      → Annotations S
  annotations comparisons validations (comparison comparator other) =
      elim (find_loaded (is_comparison comparator other) comparisons) [
        | some c ↦ record {
          annotation_type = some AnnotationType.comparison;
          comparison_annotations = c.result.field_results;
          validation_annotations = none;
        }
        | none ↦ no_annotations
      ]
  annotations comparisons (some vs) (validation name) = record {
    annotation_type = some AnnotationType.validation;
    comparison_annotations = none;
    validation_annotations = some (map (λ v. v.result) (filter (λ v. v.validator == name) vs));
  }
  annotations comparisons validations _ = no_annotations

  -- The set of tags that the annotations are about, where only these are to be shown, and as it is
  -- handed to the table: `none` where it is empty.
  unfoldable pub target_tags : Bool → Annotations S → List Text
  target_tags target_fields_only a =
      if target_fields_only && present a.annotation_type
      then add_all (distinct (map (λ c. c.tag) (or_else a.comparison_annotations [])))
          (map (λ v. v.target.tag) (or_else a.validation_annotations []))
      else []

  unfoldable pub shown_tags : Bool → Annotations S → Option (List Text)
  unfolding target_tags
  shown_tags target_fields_only a =
      let tags = target_tags target_fields_only a in
      if target_fields_only && not (is_empty tags) then some tags else none

  -- The options of the select box, by their keys.
  unfoldable pub option_keys :
      RecordSummary S
      → Option (List (ComparisonDetail S))
      → Option (List ValidationDetail)
      → List Text
  option_keys r comparisons validations =
      lit "marc"
      ∷ (map link_key r.authority_links
          ++ (map (λ c. build_comparison_key c.comparator c.other_record_id)
                (or_else comparisons [])
              ++ map build_validation_key
                  (distinct (map (λ v. v.validator) (or_else validations [])))))
