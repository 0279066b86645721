-- ===== src/Filters/Requests.antt =====
-- What a request asks for: after clearing, and against the number on the badge of the plots tab.
use marc_comparator.Base.{
  ℕ, ◌≡◌, refl, Bool, true, false, not, Option, none, some, List, [], ◌∷◌, ◌+◌, is_empty,
  if◌then◌else◌, present, ◌⊎◌, inl, inr,
}
use marc_comparator.Base.Text.{Text, lit, truthy, text_eq}
use marc_comparator.Base.Int.{pos}
use marc_comparator.Filters.Types.{Scores, Filters, RecordFilter}
use marc_comparator.Filters.Operations.{
  clear_filters, given, flag, tick, build_record_filter, build_search_payload, count_active_filters,
}

-- The request filter that asks for nothing but a text query.
abbrev pub only_text : {S : Type 0} → Option Text → RecordFilter S
only_text query = record {
  record_ids = none;
  text_query = query;
  bases = none;
  type_of_record = none;
  bibliographic_level = none;
  deleted = none;
  processed = none;
  review_statuses = none;
  authority_link_linkers = none;
  authority_link_bases = none;
  comparison_bases = none;
  match_qualities = none;
  field_explanations = none;
  validators = none;
  validation_statuses = none;
  validation_target_tags = none;
  validation_reasons = none;
  score_min = none;
  score_max = none;
}

-- The number of keys of a request filter, other than the text query.
abbrev pub constraints : {S : Type 0} → RecordFilter S → ℕ
constraints r =
    tick (present r.bases)
    + tick (present r.type_of_record)
    + tick (present r.bibliographic_level)
    + tick (present r.review_statuses)
    + tick (present r.deleted)
    + tick (present r.processed)
    + tick (present r.authority_link_linkers)
    + tick (present r.authority_link_bases)
    + tick (present r.comparison_bases)
    + tick (present r.match_qualities)
    + tick (present r.field_explanations)
    + tick (present r.validators)
    + tick (present r.validation_statuses)
    + tick (present r.validation_target_tags)
    + tick (present r.score_min)
    + tick (present r.score_max)
    + tick (present r.record_ids)
    + tick (present r.validation_reasons)

-- A filter on a flag that the client writes: "", "true" or "false".
abbrev pub IsFlag : Text → Type 0
IsFlag s = (s ≡ []) ⊎ ((s ≡ lit "true") ⊎ (s ≡ lit "false"))

present-if {ℓ} : {A : Type ℓ} (b : Bool) (a : A) → present (if b then some a else none) ≡ b
present-if true a = refl
present-if false a = refl

present-given : (xs : List Text) → present (given xs) ≡ not (is_empty xs)
present-given [] = refl
present-given (x ∷ xs) = refl

present-flag : (s : Text) → IsFlag s → present (flag s) ≡ truthy s
unfolding flag
present-flag s (inl e) = rw e
present-flag s (inr (inl e)) = rw e
present-flag s (inr (inr e)) = rw e

module _ {S : Type 0} (scores : Scores S) where
  -- After `clearFilters` a search asks for the first page of all records; the page size and the
  -- sorting stay as they were, and so does the tab.
  pub build_search_payload-clear_filters :
      (f : Filters S)
      → (build_search_payload scores (clear_filters scores f) ≡ record {
        filters = only_text none;
        page = pos 1;
        page_size = f.page_size;
        sort_by = f.sort_by;
        sort_order = f.sort_order;
      })
        × ((clear_filters scores f).tab ≡ f.tab)
  unfolding build_search_payload build_record_filter clear_filters flag
  build_search_payload-clear_filters f =
      (rw (scores.score_lt_irrefl scores.score_zero, scores.score_lt_irrefl scores.score_one), refl)

  -- Where the flags hold values that the client writes, the number on the badge counts the keys of
  -- the request filter other than the text query and the validation reasons, which it leaves out.
  pub count_active_filters-eq-constraints :
      (f : Filters S)
      → IsFlag f.deleted
      → IsFlag f.processed
      → count_active_filters scores f
          + tick (present (build_record_filter scores f).validation_reasons)
        ≡ constraints (build_record_filter scores f)
  unfolding count_active_filters build_record_filter
  count_active_filters-eq-constraints f d p =
      simp (present-if, present-given, present-flag f.deleted d, present-flag f.processed p)

  -- Where nothing but validation reasons and the text of the search filters the records, the badge
  -- shows no filter, and the request asks for these reasons and this text, and for nothing else.
  pub count_active_filters-misses-reasons :
      (f : Filters S) (text reason : Text) (more : List Text)
      → (count_active_filters scores (record (clear_filters scores f) {
        search_text = text;
        validation_reasons = reason ∷ more;
      })
          ≡ 0)
        × (build_record_filter scores (record (clear_filters scores f) {
          search_text = text;
          validation_reasons = reason ∷ more;
        })
            ≡ record (only_text (if truthy text then some text else none)) {
              validation_reasons = some (reason ∷ more);
            })
  unfolding count_active_filters build_record_filter clear_filters flag
  count_active_filters-misses-reasons f text reason more = (
    rw (scores.score_lt_irrefl scores.score_zero, scores.score_lt_irrefl scores.score_one) refl,
    rw (scores.score_lt_irrefl scores.score_zero, scores.score_lt_irrefl scores.score_one) refl,
  )
