-- ===== src/Records.antt =====
-- client/src/features/records/types.ts: the records that the server returns. A `Record<string, T>`
-- of the source is the list of its entries in the order of `Object.entries`. `S` is the type of
-- scores.
use marc_comparator.Base.{ℕ, Option, List}
use marc_comparator.Base.Text.{Text}

pub record AuthorityLinkSummary : Type 0 where
  pub linker : Text
  pub base : Text
  pub authority_record_id : Text

pub record ComparisonSummary (S : Type 0) : Type 0 where
  pub comparator : Text
  pub base : Text
  pub other_record_id : Text
  pub overall_score : S
  pub match_quality : Text

pub record ValidationSummary : Type 0 where
  pub validator : Text
  pub target_tag : Text
  pub status : Text

pub record RecordSummary (S : Type 0) : Type 0 where
  pub id : Text
  pub base : Text
  pub system_number : Text
  pub title : Option Text
  pub authors : List Text
  pub type_of_record : Option Text
  pub bibliographic_level : Option Text
  pub state : List Text
  pub authority_links : List AuthorityLinkSummary
  pub comparisons : List (ComparisonSummary S)
  pub validations : List ValidationSummary
  pub latest_sync : Option Text
  pub latest_transaction : Option Text
  pub processed_at : Option Text

pub record VariableField : Type 0 where
  pub ind1 : Option Text
  pub ind2 : Option Text
  pub subfields : List (Text × List Text)

pub record MarcRecordData : Type 0 where
  pub leader : Text
  pub fixed_fields : List (Text × Text)
  pub variable_fields : List (Text × List VariableField)

pub record SubfieldComparisonResult (S : Type 0) : Type 0 where
  pub code : Text
  pub value_a : Option Text
  pub value_b : Option Text
  pub score : S
  pub explanation : Option Text
  pub details : Option Text

pub record FieldComparisonResult (S : Type 0) : Type 0 where
  pub tag : Text
  pub value_a : Option Text
  pub value_b : Option Text
  pub score : S
  pub explanation : Option Text
  pub details : Option Text
  pub subfield_results : Option (List (SubfieldComparisonResult S))

pub record ComparisonResult (S : Type 0) : Type 0 where
  pub overall_score : S
  pub match_quality : Text
  pub summary : Option Text
  pub field_results : Option (List (FieldComparisonResult S))

pub record Target : Type 0 where
  pub tag : Text
  pub codes : Option (List Text)
  pub field_index : Option ℕ

pub record ValidationResult : Type 0 where
  pub target : Target
  pub status : Text
  pub reason : Option Text
  pub params : Option (List (Text × Text))

pub record ComparisonDetail (S : Type 0) : Type 0 where
  pub comparator : Text
  pub base : Text
  pub other_record_id : Text
  pub result : ComparisonResult S

pub record ValidationDetail : Type 0 where
  pub id : ℕ
  pub validator : Text
  pub result : ValidationResult

pub record ReviewDetail : Type 0 where
  pub id : Text
  pub record_id : Text
  pub aspect_name : Text
  pub note : Option Text
  pub reviewed_by : Text
  pub reviewer_name : Option Text
  pub reviewed_at : Text
  pub status : Text
