-- ===== src/Filters/Operations.antt =====
-- The setters of `useRecordFilters`, `buildRecordFilter`, `buildSearchPayload` and
-- `countActiveFilters`.
use marc_comparator.Base.{
  ℕ, Bool, true, false, not, Option, none, some, List, [], ◌∷◌, ◌++◌, ◌+◌, is_empty, if◌then◌else◌,
}
use marc_comparator.Base.Text.{Text, lit, truthy, text_eqb, text_eq}
use marc_comparator.Base.Int.{ℤ, pos}
use marc_comparator.Base.Sets.{includes, delete}
use marc_comparator.Filters.Types.{
  Scores, RecordTab, Filters, ArrayField, bases, type_of_record, bibliographic_level,
  review_statuses, authority_link_linkers, authority_link_bases, comparison_bases, match_qualities,
  field_explanations, validators, validation_statuses, validation_target_tags, validation_reasons,
  Field, array, scalar, RecordFilter, SearchRecordsRequest,
}

unfoldable pub toggle_value : List Text → Text → List Text
toggle_value current value =
    if includes current value then delete current value else current ++ value ∷ []

-- A list as a value of the request: left out where it is empty.
abbrev pub given : List Text → Option (List Text)
given xs = if is_empty xs then none else some xs

-- The values "true" and "false" of a filter on a flag; any other value is left out.
unfoldable pub flag : Text → Option Bool
unfolding text_eqb
flag s =
    if text_eqb s (lit "true")
    then some true
    else if text_eqb s (lit "false")
    then some false
    else none

-- One `if (…) count++`.
abbrev pub tick : Bool → ℕ
tick b = if b then 1 else 0

module _ {S : Type 0} where
  unfoldable pub set_tab : RecordTab → Filters S → Filters S
  set_tab tab f = record f { tab = tab }

  unfoldable pub set_page : ℤ → Filters S → Filters S
  set_page page f = record f { page = page }

  unfoldable pub set_search : Text → Filters S → Filters S
  set_search text f = record f { search_text = text; page = pos 1 }

  unfoldable pub set_score_range : S → S → Filters S → Filters S
  set_score_range from to f = record f { score_min = from; score_max = to; page = pos 1 }

  unfoldable pub get_array : Filters S → ArrayField → List Text
  get_array f bases = f.bases
  get_array f type_of_record = f.type_of_record
  get_array f bibliographic_level = f.bibliographic_level
  get_array f review_statuses = f.review_statuses
  get_array f authority_link_linkers = f.authority_link_linkers
  get_array f authority_link_bases = f.authority_link_bases
  get_array f comparison_bases = f.comparison_bases
  get_array f match_qualities = f.match_qualities
  get_array f field_explanations = f.field_explanations
  get_array f validators = f.validators
  get_array f validation_statuses = f.validation_statuses
  get_array f validation_target_tags = f.validation_target_tags
  get_array f validation_reasons = f.validation_reasons

  -- `setFilters({ [field]: next, page: 1 })`.
  unfoldable pub set_array : ArrayField → List Text → Filters S → Filters S
  set_array bases xs f = record f { bases = xs; page = pos 1 }
  set_array type_of_record xs f = record f { type_of_record = xs; page = pos 1 }
  set_array bibliographic_level xs f = record f { bibliographic_level = xs; page = pos 1 }
  set_array review_statuses xs f = record f { review_statuses = xs; page = pos 1 }
  set_array authority_link_linkers xs f = record f { authority_link_linkers = xs; page = pos 1 }
  set_array authority_link_bases xs f = record f { authority_link_bases = xs; page = pos 1 }
  set_array comparison_bases xs f = record f { comparison_bases = xs; page = pos 1 }
  set_array match_qualities xs f = record f { match_qualities = xs; page = pos 1 }
  set_array field_explanations xs f = record f { field_explanations = xs; page = pos 1 }
  set_array validators xs f = record f { validators = xs; page = pos 1 }
  set_array validation_statuses xs f = record f { validation_statuses = xs; page = pos 1 }
  set_array validation_target_tags xs f = record f { validation_target_tags = xs; page = pos 1 }
  set_array validation_reasons xs f = record f { validation_reasons = xs; page = pos 1 }

  unfoldable pub toggle_array_filter : Field → Text → Filters S → Filters S
  toggle_array_filter scalar value f = f
  toggle_array_filter (array field) value f =
      set_array field (toggle_value (get_array f field) value) f

module _ {S : Type 0} (scores : Scores S) where
  unfoldable pub clear_filters : Filters S → Filters S
  clear_filters f = record f {
    bases = [];
    type_of_record = [];
    bibliographic_level = [];
    review_statuses = [];
    deleted = [];
    processed = [];
    authority_link_linkers = [];
    authority_link_bases = [];
    comparison_bases = [];
    match_qualities = [];
    field_explanations = [];
    validators = [];
    validation_statuses = [];
    validation_target_tags = [];
    validation_reasons = [];
    score_min = scores.score_zero;
    score_max = scores.score_one;
    search_text = [];
    page = pos 1;
    record_id = [];
    record_index = pos 0;
    carousel_view = [];
  }

  unfoldable pub build_record_filter : Filters S → RecordFilter S
  build_record_filter f = record {
    record_ids = if truthy f.record_id then some (f.record_id ∷ []) else none;
    text_query = if truthy f.search_text then some f.search_text else none;
    bases = given f.bases;
    type_of_record = given f.type_of_record;
    bibliographic_level = given f.bibliographic_level;
    deleted = flag f.deleted;
    processed = flag f.processed;
    review_statuses = given f.review_statuses;
    authority_link_linkers = given f.authority_link_linkers;
    authority_link_bases = given f.authority_link_bases;
    comparison_bases = given f.comparison_bases;
    match_qualities = given f.match_qualities;
    field_explanations = given f.field_explanations;
    validators = given f.validators;
    validation_statuses = given f.validation_statuses;
    validation_target_tags = given f.validation_target_tags;
    validation_reasons = given f.validation_reasons;
    score_min = if scores.score_lt scores.score_zero f.score_min then some f.score_min else none;
    score_max = if scores.score_lt f.score_max scores.score_one then some f.score_max else none;
  }

  unfoldable pub build_search_payload : Filters S → SearchRecordsRequest S
  build_search_payload f = record {
    filters = build_record_filter f;
    page = f.page;
    page_size = f.page_size;
    sort_by = f.sort_by;
    sort_order = f.sort_order;
  }

  unfoldable pub count_active_filters : Filters S → ℕ
  count_active_filters f =
      tick (not (is_empty f.bases))
      + tick (not (is_empty f.type_of_record))
      + tick (not (is_empty f.bibliographic_level))
      + tick (not (is_empty f.review_statuses))
      + tick (truthy f.deleted)
      + tick (truthy f.processed)
      + tick (not (is_empty f.authority_link_linkers))
      + tick (not (is_empty f.authority_link_bases))
      + tick (not (is_empty f.comparison_bases))
      + tick (not (is_empty f.match_qualities))
      + tick (not (is_empty f.field_explanations))
      + tick (not (is_empty f.validators))
      + tick (not (is_empty f.validation_statuses))
      + tick (not (is_empty f.validation_target_tags))
      + tick (scores.score_lt scores.score_zero f.score_min)
      + tick (scores.score_lt f.score_max scores.score_one)
      + tick (truthy f.record_id)
