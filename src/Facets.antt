-- ===== src/Facets.antt =====
-- client/src/features/records/plots/plots-view.tsx and use-facets.ts: the active values of the
-- charts, their toggles, the bar of active filters, and the previews of a hovered value.
pub mod Preview
pub mod Content
pub mod Active
pub mod Bar
mod Tests
use marc_comparator.Base.{
  ℕ, ◌≡◌, Bool, true, false, not, ◌&&◌, ◌||◌, Option, none, some, List, [], ◌∷◌, ◌++◌, map, any,
  filter, find?, is_empty, if◌then◌else◌, ◌==◌, ltb,
}
use marc_comparator.Base.Text.{Text, lit, text_eq, truthy}
use marc_comparator.Base.Int.{pos}
use marc_comparator.Filters.{
  Scores, Filters, ArrayField, bases, type_of_record, bibliographic_level, review_statuses,
  authority_link_linkers, authority_link_bases, comparison_bases, match_qualities,
  field_explanations, validators, validation_statuses, validation_target_tags, validation_reasons,
  array, get_array, toggle_array_filter,
}

-- The keys `FilterKey`: the arrays, and the two flags that are texts.
pub data FilterKey : Type 0 where
  array_key : ArrayField → FilterKey
  deleted_key processed_key : FilterKey

-- `FACET_TO_URL_PARAM`, in the order of its entries.
abbrev pub facet_to_url_param : List (Text × FilterKey)
facet_to_url_param =
    (lit "base", array_key bases)
    ∷ (lit "type_of_record", array_key type_of_record)
    ∷ (lit "bibliographic_level", array_key bibliographic_level)
    ∷ (lit "is_deleted", deleted_key)
    ∷ (lit "is_processed", processed_key)
    ∷ (lit "review_status", array_key review_statuses)
    ∷ (lit "authority_link_linkers", array_key authority_link_linkers)
    ∷ (lit "authority_link_bases", array_key authority_link_bases)
    ∷ (lit "comparison_bases", array_key comparison_bases)
    ∷ (lit "match_qualities", array_key match_qualities)
    ∷ (lit "field_explanations", array_key field_explanations)
    ∷ (lit "validators", array_key validators)
    ∷ (lit "validation_statuses", array_key validation_statuses)
    ∷ (lit "validation_target_tags", array_key validation_target_tags)
    ∷ (lit "validation_reasons", array_key validation_reasons)
    ∷ []

-- The value of a key of an object that is written as the list of its entries.
unfoldable pub lookup : {A : Type 0} → List (Text × A) → Text → Option A
lookup [] key = none
lookup ((k, v) ∷ rest) key = if k == key then some v else lookup rest key

-- `BOOL_LABEL_TO_VALUE`.
abbrev pub deleted_labels : List (Text × Text)
deleted_labels = (lit "Deleted", lit "true") ∷ (lit "Active", lit "false") ∷ []

abbrev pub processed_labels : List (Text × Text)
processed_labels = (lit "Processed", lit "true") ∷ (lit "Unprocessed", lit "false") ∷ []

-- The labels whose value is the value of the filter.
unfoldable pub labels_of : List (Text × Text) → Text → List Text
labels_of labels value =
    if truthy value then map (λ e. e.0) (filter (λ e. e.1 == value) labels) else []

-- The new value of a flag for the value of the clicked label. `undefined`, where the label is none
-- of the two, leaves the flag as it is.
abbrev pub flag_after : Option Text → Text → Text
flag_after none current = current
flag_after (some target) current = if current == target then [] else target

unfoldable pub toggle_flag : List (Text × Text) → Text → Text → Text
toggle_flag labels label current = flag_after (lookup labels label) current

module _ {S : Type 0} where
  unfoldable pub values_of_key : Filters S → FilterKey → List Text
  unfolding labels_of
  values_of_key f (array_key field) = get_array f field
  values_of_key f deleted_key = labels_of deleted_labels f.deleted
  values_of_key f processed_key = labels_of processed_labels f.processed

  unfoldable pub toggle_key : FilterKey → Text → Filters S → Filters S
  unfolding toggle_flag
  toggle_key (array_key field) value f = toggle_array_filter (array field) value f
  toggle_key deleted_key value f = record f {
    deleted = toggle_flag deleted_labels value f.deleted;
    page = pos 1;
  }
  toggle_key processed_key value f = record f {
    processed = toggle_flag processed_labels value f.processed;
    page = pos 1;
  }

  abbrev pub values_of : Filters S → Option FilterKey → List Text
  values_of f none = []
  values_of f (some key) = values_of_key f key

  abbrev pub toggle_of : Option FilterKey → Text → Filters S → Filters S
  toggle_of none value f = f
  toggle_of (some key) value f = toggle_key key value f

  unfoldable pub get_active_values : Filters S → Text → List Text
  get_active_values f facet_field = values_of f (lookup facet_to_url_param facet_field)

  unfoldable pub handle_toggle : Text → Text → Filters S → Filters S
  handle_toggle facet_field value f = toggle_of (lookup facet_to_url_param facet_field) value f

  -- The values of the bar of active filters, each with its facet.
  unfoldable pub active_filters_of : Filters S → List (Text × FilterKey) → List (Text × Text)
  unfolding values_of_key
  active_filters_of f [] = []
  active_filters_of f ((field, key) ∷ rest) =
      map (λ v. (field, v)) (values_of_key f key) ++ active_filters_of f rest

  abbrev pub active_filters : Filters S → List (Text × Text)
  active_filters f = active_filters_of f facet_to_url_param

module _ {S : Type 0} (scores : Scores S) where
  unfoldable pub has_score_filter : Filters S → Bool
  has_score_filter f =
      scores.score_lt scores.score_zero f.score_min || scores.score_lt f.score_max scores.score_one

  unfoldable pub has_any_filter : Filters S → Bool
  unfolding active_filters_of has_score_filter
  has_any_filter f = not (is_empty (active_filters f)) || has_score_filter f || truthy f.record_id
