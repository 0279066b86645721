-- ===== src/Table/Tests.antt =====
-- The table on concrete events and badges, and the theorems about it.
use marc_comparator.Base.{ℕ, ◌≡◌, refl, true, none, some, List, [], ◌∷◌, any, All}
use marc_comparator.Base.Text.{Text, lit, text_eqb, split_at}
use marc_comparator.Base.Int.{pos}
use marc_comparator.Filters.{set_search}
use marc_comparator.Filters.Tests.{blank}
use marc_comparator.Records.{RecordSummary, ComparisonDetail, ValidationDetail}
use marc_comparator.Carousel.View.{is_view_available}
use marc_comparator.Carousel.Navigation.{selected_view}
use marc_comparator.Table.{on_navigate}
use marc_comparator.Table.Search.{
  SearchEvent, typed, elapsed, changed, mounted, search_step, search_run, with_filters, on_typed,
  search_run-elapsed,
}
use marc_comparator.Table.Badges.{view_key}
use marc_comparator.Carousel.Header.{record_badges, on_select_view, record_badges-available}

runs : Unit {0}
unfolding search_run search_step with_filters on_typed set_search text_eqb any split_at
runs = tt

-- Two texts are typed in quick succession; the time is over; then a third is typed.
abbrev typing : List (SearchEvent ℕ)
typing = typed (lit "ab") ∷ typed (lit "abc") ∷ elapsed ∷ elapsed ∷ typed (lit "x") ∷ []

typed_last : (search_run typing (mounted blank)).filters.search_text ≡ lit "abc"
unfolding runs mounted
typed_last = refl

-- Another filter is changed, twice the time is over, and the page is turned.
abbrev others : List (SearchEvent ℕ)
others =
    changed (λ f. record f { bases = lit "b" ∷ [] })
    ∷ elapsed
    ∷ changed (λ f. record f { page = pos 2 })
    ∷ elapsed
    ∷ []

abbrev zebra : Text
zebra = lit "zebra"

search_run-elapsed_example :
    (((search_step elapsed (search_run typing (mounted blank))).filters.search_text
        ≡ (search_run typing (mounted blank)).search_input)
      × ((search_step elapsed (search_run typing (mounted blank))).search_input
          ≡ (search_run typing (mounted blank)).search_input)
      × ((search_step elapsed (search_run typing (mounted blank))).timer ≡ none))
    × ((search_run others (on_typed zebra (search_run typing (mounted blank)))).search_input
        ≡ zebra)
    × ((search_step elapsed (
          search_run others
            (on_typed zebra (search_run typing (mounted blank))))).filters.search_text
        ≡ zebra)
search_run-elapsed_example =
    search_run-elapsed blank typing zebra others ((λ f. refl), (tt, ((λ f. refl), (tt, tt))))

abbrev detail : ComparisonDetail ℕ
detail = record {
  comparator = lit "c";
  base = lit "SKC";
  other_record_id = lit "SKC-9";
  result = record {
    overall_score = 50;
    match_quality = lit "moderate";
    summary = none;
    field_results = none;
  };
}

abbrev validated : ValidationDetail
validated = record {
  id = 1;
  validator = lit "v";
  result = record {
    target = record { tag = lit "856"; codes = none; field_index = none };
    status = lit "Valid";
    reason = none;
    params = none;
  };
}

abbrev compared : RecordSummary ℕ
compared = record {
  id = lit "b";
  base = lit "MZK01";
  system_number = lit "2";
  title = none;
  authors = [];
  type_of_record = none;
  bibliographic_level = none;
  state = [];
  authority_links =
      record { linker = lit "l"; base = lit "SKC"; authority_record_id = lit "SKC-7" } ∷ [];
  comparisons =
      record {
        comparator = lit "c";
        base = lit "SKC";
        other_record_id = lit "SKC-9";
        overall_score = 50;
        match_quality = lit "moderate";
      }
      ∷ [];
  validations = record { validator = lit "v"; target_tag = lit "856"; status = lit "Valid" } ∷ [];
  latest_sync = none;
  latest_transaction = none;
  processed_at = none;
}

abbrev row : ℕ
row = 4

record_badges-available_example :
    All
      (λ b.
        (selected_view (on_navigate row (view_key b) blank) ≡ view_key b)
        × ((selected_view (on_select_view b blank) ≡ view_key b)
            × (is_view_available (view_key b) compared (some (detail ∷ [])) (some (validated ∷ []))
                ≡ true)))
      (record_badges compared)
unfolding runs
record_badges-available_example =
    record_badges-available row blank compared (some (detail ∷ [])) (some (validated ∷ []))
      (((refl, refl), tt), (refl, tt))
