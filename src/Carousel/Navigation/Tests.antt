-- ===== src/Carousel/Navigation/Tests.antt =====
-- Two pages of two and one records.
use marc_comparator.Base.{ℕ, ◌+◌, ◌*◌, ◌≡◌, refl, true, false, none, [], ◌∷◌, arith, ◌≢◌}
use marc_comparator.Base.Text.{lit, text_eq}
use marc_comparator.Base.Int.{pos, negsuc}
use marc_comparator.Filters.{Filters, plots, by_latest_sync, desc}
use marc_comparator.Carousel.Navigation.{go_to_prev, go_to_next, screen, carousel, total_pages}
use marc_comparator.Carousel.Navigation.Position.{
  at, page_count, next_page, next_index, go_to_next-position,
}

abbrev start : Filters ℕ
start = record {
  tab = plots;
  page = pos 1;
  page_size = pos 2;
  sort_by = by_latest_sync;
  sort_order = desc;
  search_text = [];
  bases = [];
  type_of_record = [];
  bibliographic_level = [];
  review_statuses = [];
  deleted = [];
  processed = [];
  authority_link_linkers = [];
  authority_link_bases = [];
  comparison_bases = [];
  match_qualities = [];
  field_explanations = [];
  validators = [];
  validation_statuses = [];
  validation_target_tags = [];
  validation_reasons = [];
  score_min = 0;
  score_max = 100;
  record_id = [];
  record_index = pos 1;
  carousel_view = [];
}

go_to_next_run : (go_to_next start 2 3).page ≡ pos 2
unfolding go_to_next
go_to_next_run = refl

total_pages_run : total_pages 3 2 ≡ 2
unfolding total_pages
total_pages_run = refl

-- With `recordIndex=-1` in the URL two records are found, and none is shown.
screen_negative :
    screen (record start { record_index = negsuc 0 }) (lit "a" ∷ lit "b" ∷ []) 3
    ≡ carousel none false true
unfolding screen
screen_negative = refl

go_to_next-position_example :
    (go_to_next (at 0 1 1 start) (page_count 0 1 3) 3
      ≡ at (next_page 0 1 1) 1 (next_index 1 1) start)
    × (next_page 0 1 1 * 2 + next_index 1 1 ≡ 0 * 2 + 2)
    × (go_to_prev (at (next_page 0 1 1) 1 (next_index 1 1) start) (page_count (next_page 0 1 1) 1 3)
        ≡ at 0 1 1 start)
go_to_next-position_example = go_to_next-position start 0 1 1 3 (omega arith) (omega arith)

view_is_named : lit "val:x" ≢ []
view_is_named = ground arith
