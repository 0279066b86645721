-- ===== src/Facets/Content.antt =====
-- Which sections of plots-view.tsx have something to show, and the data of the validators that
-- use-facets.ts takes from the preview of their facet.
use marc_comparator.Base.{
  ℕ, Bool, true, false, not, ◌&&◌, ◌||◌, Option, none, some, List, [], ◌∷◌, any, filter, find?,
  is_empty, if◌then◌else◌, ◌==◌, leb, nat_eqb,
}
use marc_comparator.Base.Text.{Text, lit, text_eq}
use marc_comparator.Base.Sort.{sort}
use marc_comparator.Sections.{is_visible}
use marc_comparator.Facets.Preview.{
  FacetBucket, FacetResult, HistogramResult, FacetsResponse, FacetsPreviewEntry,
  FacetsPreviewResponse, get_buckets,
}

-- `EXPLANATION_ORDER[key]`; `none` is the largest number.
unfoldable pub explanation_order : Text → Option ℕ
explanation_order key =
    if key == lit "Identical"
    then some 0
    else if key == lit "NonStandardized"
    then some 1
    else if key == lit "Typo"
    then some 2
    else if key == lit "Incomplete"
    then some 3
    else if key == lit "Incorrect"
    then some 4
    else if key == lit "Missing"
    then some 5
    else none

-- The comparator of the buckets is not positive: by order, then the larger count first.
unfoldable pub explanation_le : FacetBucket → FacetBucket → Bool
unfolding explanation_order
explanation_le a b = compared (explanation_order a.key) (explanation_order b.key)
  where
    compared : Option ℕ → Option ℕ → Bool
    compared none none = leb b.count a.count
    compared none (some n) = false
    compared (some m) none = true
    compared (some m) (some n) = if nat_eqb m n then leb b.count a.count else leb m n

-- The fields of the pills of the context.
abbrev pub context_fields : List Text
context_fields =
    lit "base"
    ∷ lit "authority_link_bases"
    ∷ lit "authority_link_linkers"
    ∷ lit "comparison_bases"
    ∷ lit "validators"
    ∷ []

pub record ValidatorData : Type 0 where
  pub validator : Text
  pub statuses : List FacetBucket
  pub reasons : List FacetBucket

abbrev pub buckets_of : Option FacetResult → List FacetBucket
buckets_of none = []
buckets_of (some f) = f.buckets

module _ {S : Type 0} where
  -- `usePerValidatorData`.
  unfoldable pub use_per_validator_data :
      Option (FacetsPreviewResponse S) → Option (List ValidatorData)
  use_per_validator_data none = none
  use_per_validator_data (some preview) = some (entries preview.previews)
    where
      entries : List (FacetsPreviewEntry S) → List ValidatorData
      entries [] = []
      entries (p ∷ ps) =
          record {
            validator = p.target_value;
            statuses = buckets_of (find? (λ f. f.field == lit "validation_statuses") p.facets);
            reasons = buckets_of (find? (λ f. f.field == lit "validation_reasons") p.facets);
          }
          ∷ entries ps

  unfoldable pub explanation_buckets : FacetsResponse S → List FacetBucket
  unfolding explanation_le
  explanation_buckets facets = sort explanation_le (get_buckets facets (lit "field_explanations"))

  abbrev pub has_buckets : FacetsResponse S → Text → Bool
  has_buckets facets field = not (is_empty (get_buckets facets field))

  -- The fields of the pill groups; `hidden` is the text of the hidden charts.
  unfoldable pub pill_fields : Text → FacetsResponse S → List Text
  pill_fields hidden facets =
      filter (λ field. is_visible hidden field && has_buckets facets field) context_fields

  unfoldable pub has_records_content : Text → FacetsResponse S → Bool
  has_records_content hidden facets =
      (is_visible hidden (lit "record_status")
        && (has_buckets facets (lit "is_deleted")
            || has_buckets facets (lit "review_status")
            || has_buckets facets (lit "is_processed")))
      || (is_visible hidden (lit "type_of_record") && has_buckets facets (lit "type_of_record"))
      || (is_visible hidden (lit "bibliographic_level")
          && has_buckets facets (lit "bibliographic_level"))

  abbrev pub has_scores : Option (HistogramResult S) → Bool
  has_scores none = false
  has_scores (some h) = not (is_empty h.buckets)

  unfoldable pub has_comparison_content : Text → FacetsResponse S → Bool
  has_comparison_content hidden facets =
      (is_visible hidden (lit "match_quality") && has_buckets facets (lit "match_qualities"))
      || (is_visible hidden (lit "overall_score")
          && has_scores (find? (λ h. h.field == lit "overall_score") facets.histograms))
      || (is_visible hidden (lit "field_explanations")
          && not (is_empty (explanation_buckets facets)))

unfoldable pub has_validation_content : Option (List ValidatorData) → Bool
has_validation_content none = false
has_validation_content (some validators) = any (λ v. not (is_empty v.statuses)) validators
