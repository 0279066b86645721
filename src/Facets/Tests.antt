-- ===== src/Facets/Tests.antt =====
-- The charts at concrete filters, and the theorems about them.
use marc_comparator.Base.{ℕ, ◌≡◌, ◌≢◌, refl, not, Option, none, arith}
use marc_comparator.Base.Text.{Text, lit, text_eq, text_eqb}
use marc_comparator.Base.Sets.{includes}
use marc_comparator.Filters.{Filters, bases, build_record_filter, get_array, clear_filters}
use marc_comparator.Filters.Requests.{only_text}
use marc_comparator.Filters.Tests.{percent, blank}
use marc_comparator.Facets.{
  array_key, deleted_key, lookup, get_active_values, handle_toggle, has_any_filter, labels_of,
  values_of_key, active_filters_of, has_score_filter,
}
use marc_comparator.Facets.Active.{get_active_values-handle_toggle}
use marc_comparator.Facets.Bar.{has_any_filter-request}
use marc_comparator.Facets.Preview.{FacetsPreviewResponse, Hover}

keys_differ : deleted_key ≢ array_key bases
keys_differ = ground arith

get_active_values-handle_toggle_example :
    (includes
        (get_active_values
          (handle_toggle (lit "is_deleted") (lit "Active") blank)
          (lit "is_deleted"))
        (lit "Active")
      ≡ not (includes (get_active_values blank (lit "is_deleted")) (lit "Active")))
    × (get_active_values (handle_toggle (lit "is_deleted") (lit "Active") blank) (lit "base")
        ≡ get_active_values blank (lit "base"))
unfolding lookup text_eqb
get_active_values-handle_toggle_example =
    get_active_values-handle_toggle blank (lit "is_deleted") (lit "base") (lit "Active") deleted_key
      (array_key bases) refl refl keys_differ refl

abbrev cleared : Filters ℕ
cleared = clear_filters percent blank

has_any_filter-request_example : build_record_filter percent cleared ≡ only_text none
unfolding has_any_filter active_filters_of has_score_filter values_of_key labels_of clear_filters
    get_array
has_any_filter-request_example = has_any_filter-request percent cleared refl

abbrev nowhere : Hover
nowhere = record { hovered_field = none; hovered_value = none }

abbrev no_data : Text → Option (FacetsPreviewResponse ℕ)
no_data field = none
