-- ===== src/Filters/Types.antt =====
-- The filter state and the request types.
use marc_comparator.Base.{◌≡◌, Bool, false, Option, List}
use marc_comparator.Base.Text.{Text}
use marc_comparator.Base.Int.{ℤ}

-- The numbers 0 and 1 and the order on scores; no number is below itself.
pub record Scores (S : Type 0) : Type 0 where
  pub score_zero : S
  pub score_one : S
  pub score_lt : S → S → Bool
  pub score_lt_irrefl : (s : S) → score_lt s s ≡ false

pub data RecordTab : Type 0 where
  plots table carousel addition : RecordTab

pub data SortBy : Type 0 where
  by_id by_base by_system_number by_latest_sync by_updated_at by_comparison_score : SortBy

pub data SortOrder : Type 0 where
  asc desc : SortOrder

pub record Filters (S : Type 0) : Type 0 where
  pub tab : RecordTab
  pub page : ℤ
  pub page_size : ℤ
  pub sort_by : SortBy
  pub sort_order : SortOrder
  pub search_text : Text
  pub bases : List Text
  pub type_of_record : List Text
  pub bibliographic_level : List Text
  pub review_statuses : List Text
  pub deleted : Text
  pub processed : Text
  pub authority_link_linkers : List Text
  pub authority_link_bases : List Text
  pub comparison_bases : List Text
  pub match_qualities : List Text
  pub field_explanations : List Text
  pub validators : List Text
  pub validation_statuses : List Text
  pub validation_target_tags : List Text
  pub validation_reasons : List Text
  pub score_min : S
  pub score_max : S
  pub record_id : Text
  pub record_index : ℤ
  pub carousel_view : Text

-- The filters whose value is an array.
pub data ArrayField : Type 0 where
  bases type_of_record bibliographic_level review_statuses : ArrayField
  authority_link_linkers authority_link_bases comparison_bases match_qualities : ArrayField
  field_explanations validators validation_statuses : ArrayField
  validation_target_tags validation_reasons : ArrayField

-- A key of the filters: an array, or one whose value is not an array.
pub data Field : Type 0 where
  array : ArrayField → Field
  scalar : Field

-- The filter of a request to the server; a key that is left out is `none`.
pub record RecordFilter (S : Type 0) : Type 0 where
  pub record_ids : Option (List Text)
  pub text_query : Option Text
  pub bases : Option (List Text)
  pub type_of_record : Option (List Text)
  pub bibliographic_level : Option (List Text)
  pub deleted : Option Bool
  pub processed : Option Bool
  pub review_statuses : Option (List Text)
  pub authority_link_linkers : Option (List Text)
  pub authority_link_bases : Option (List Text)
  pub comparison_bases : Option (List Text)
  pub match_qualities : Option (List Text)
  pub field_explanations : Option (List Text)
  pub validators : Option (List Text)
  pub validation_statuses : Option (List Text)
  pub validation_target_tags : Option (List Text)
  pub validation_reasons : Option (List Text)
  pub score_min : Option S
  pub score_max : Option S

pub record SearchRecordsRequest (S : Type 0) : Type 0 where
  pub filters : RecordFilter S
  pub page : ℤ
  pub page_size : ℤ
  pub sort_by : SortBy
  pub sort_order : SortOrder
