-- ===== src/Tasks/Tests.antt =====
-- Pages, times and locks of concrete tasks, and the theorems about them.
use marc_comparator.Base.{ℕ, ◌≤◌, ◌≡◌, refl, List, [], ◌∷◌, map, arith}
use marc_comparator.Base.Text.{lit}
use marc_comparator.Carousel.Navigation.{total_pages}
use marc_comparator.Tasks.{
  PagerEvent, previous_clicked, next_clicked, turn_all, format_lock_name, catalog_sync, other_lock,
  drop_prefix,
}
use marc_comparator.Tasks.Pages.{turn_all-stuck}

abbrev clicks : List PagerEvent
clicks = next_clicked ∷ next_clicked ∷ next_clicked ∷ previous_clicked ∷ []

abbrev one : ℕ
one = 1

abbrev page_two : ℕ
page_two = 2

abbrev fifteen : ℕ
fifteen = 15

abbrev forty : ℕ
forty = 40

one_of_pages : one ≤ total_pages forty fifteen
unfolding total_pages
one_of_pages = omega arith

turn_all-stuck_example : turn_all (map (λ ev. (ev, (one, fifteen))) clicks) page_two ≡ page_two
turn_all-stuck_example = turn_all-stuck clicks one fifteen page_two (omega arith) (omega arith)

abbrev start_time : ℕ
start_time = 500

abbrev end_time : ℕ
end_time = 125499

locks : format_lock_name (lit "catalog_sync_MZK01") ≡ catalog_sync (lit "MZK01")
unfolding format_lock_name drop_prefix
locks = refl

no_base : format_lock_name (lit "catalog_sync_") ≡ other_lock (lit "catalog_sync_")
unfolding format_lock_name drop_prefix
no_base = refl
