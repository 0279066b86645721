-- ===== src/Filters/Tests.antt =====
-- The filter state at concrete values; scores are percentages here.
use marc_comparator.Base.{
  ℕ, ◌≡◌, refl, false, none, some, [], ◌∷◌, ◌+◌, arith, ltb, present, inl, inr, ◌≢◌, filter,
}
use marc_comparator.Base.Text.{lit, text_eq, text_eqb}
use marc_comparator.Base.Int.{pos}
use marc_comparator.Base.Sets.{includes, delete}
use marc_comparator.Filters.Types.{
  Scores, Filters, plots, by_latest_sync, desc, bases, validators, array,
}
use marc_comparator.Filters.Operations.{
  clear_filters, tick, build_record_filter, build_search_payload, count_active_filters, get_array,
  toggle_array_filter, toggle_value, set_array,
}
use marc_comparator.Filters.Requests.{
  only_text, constraints, build_search_payload-clear_filters, count_active_filters-eq-constraints,
  count_active_filters-misses-reasons,
}

pub ltb_irrefl : (n : ℕ) → ltb n n ≡ false
ltb_irrefl n = ground arith

abbrev pub percent : Scores ℕ
percent = record { score_zero = 0; score_one = 100; score_lt = ltb; score_lt_irrefl = ltb_irrefl }

abbrev pub blank : Filters ℕ
blank = record {
  tab = plots;
  page = pos 3;
  page_size = pos 25;
  sort_by = by_latest_sync;
  sort_order = desc;
  search_text = lit "Hus";
  bases = lit "MZK01" ∷ [];
  type_of_record = [];
  bibliographic_level = [];
  review_statuses = [];
  deleted = lit "true";
  processed = [];
  authority_link_linkers = [];
  authority_link_bases = [];
  comparison_bases = [];
  match_qualities = [];
  field_explanations = [];
  validators = [];
  validation_statuses = [];
  validation_target_tags = [];
  validation_reasons = [];
  score_min = 20;
  score_max = 100;
  record_id = [];
  record_index = pos 0;
  carousel_view = [];
}

count_blank : count_active_filters percent blank ≡ 3
unfolding count_active_filters
count_blank = refl

toggle_base : (toggle_array_filter (array bases) (lit "MZK01") blank).bases ≡ []
unfolding toggle_array_filter toggle_value includes delete text_eqb filter set_array get_array
toggle_base = refl

build_search_payload-clear_filters_example :
    (build_search_payload percent (clear_filters percent blank) ≡ record {
      filters = only_text none;
      page = pos 1;
      page_size = pos 25;
      sort_by = by_latest_sync;
      sort_order = desc;
    })
    × ((clear_filters percent blank).tab ≡ plots)
build_search_payload-clear_filters_example = build_search_payload-clear_filters percent blank

count_active_filters-eq-constraints_example :
    count_active_filters percent blank
      + tick (present (build_record_filter percent blank).validation_reasons)
    ≡ constraints (build_record_filter percent blank)
count_active_filters-eq-constraints_example =
    count_active_filters-eq-constraints percent blank (inr (inl refl)) (inl refl)

count_active_filters-misses-reasons_example :
    (count_active_filters percent (record (clear_filters percent blank) {
      search_text = lit "q";
      validation_reasons = lit "r" ∷ [];
    })
      ≡ 0)
    × (build_record_filter percent (record (clear_filters percent blank) {
      search_text = lit "q";
      validation_reasons = lit "r" ∷ [];
    })
        ≡ record (only_text (some (lit "q"))) { validation_reasons = some (lit "r" ∷ []) })
count_active_filters-misses-reasons_example =
    count_active_filters-misses-reasons percent blank (lit "q") (lit "r") []

bases≢validators : bases ≢ validators
bases≢validators = ground arith
