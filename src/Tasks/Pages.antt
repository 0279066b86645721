-- ===== src/Tasks/Pages.antt =====
-- The pages of the list of tasks.
use native.Mathlib.Nat.{div-lt_iff_lt-mul}
use marc_comparator.Base.{
  ℕ, ◌+◌, ◌-◌, ◌/◌, ◌≤◌, ◌<◌, ◌≡◌, refl, ap, ◌∙◌, Bool, true, false, not, none, some, List, [], ◌∷◌,
  if◌then◌else◌, leb, ltb, arith, map,
}
use marc_comparator.Carousel.Navigation.{total_pages}
use marc_comparator.Tasks.{pager, PagerEvent, previous_clicked, next_clicked, click, turn, turn_all}

-- There is a first page, and the last page holds the last task.
click-pages :
    (ev : PagerEvent) (page pages : ℕ) (test : Bool)
    → test ≡ ltb 1 pages
    → 1 ≤ page
    → page ≤ pages
    → (1
        ≤ click ev page (
            if test
            then some (record { can_go_back = not (leb page 1); can_go_on = not (leb pages page) })
            else none))
      × (click ev page (
            if test
            then some (record { can_go_back = not (leb page 1); can_go_on = not (leb pages page) })
            else none)
          ≤ pages)
click-pages ev page pages false e low high = (low, high)
click-pages previous_clicked page pages true e low high = (ground arith, ground arith)
click-pages next_clicked page pages true e low high = (ground arith, ground arith)

-- While the number of tasks and the page size stay as they are, and there are pages: however the
-- buttons are clicked, the page stays within them.
pub turn_all-bounds :
    (evs : List PagerEvent) (total size page : ℕ)
    → 1 ≤ page
    → page ≤ total_pages total size
    → (1 ≤ turn_all (map (λ ev. (ev, (total, size))) evs) page)
      × (turn_all (map (λ ev. (ev, (total, size))) evs) page ≤ total_pages total size)
unfolding turn_all turn pager
turn_all-bounds [] total size page low high = (low, high)
turn_all-bounds (ev ∷ evs) total size page low high =
    let now =
      click-pages ev page (total_pages total size) (ltb 1 (total_pages total size)) refl low high in
    turn_all-bounds evs total size (turn (ev, (total, size)) page) now.0 now.1

one_page : (total size : ℕ) → total ≤ size → 1 ≤ size → ltb 1 (total_pages total size) ≡ false
unfolding total_pages
one_page total size few some_size =
    let short : (total + size - 1) / size < 2 = (div-lt_iff_lt-mul some_size).1 (omega arith) in
    ground (arith, short)

turn-stuck :
    (ev : PagerEvent) (total size page : ℕ)
    → total ≤ size
    → 1 ≤ size
    → turn (ev, (total, size)) page ≡ page
unfolding turn pager
turn-stuck ev total size page few some_size =
    let hidden : pager page total size ≡ none = rw (one_page total size few some_size) refl in
    ap (λ p. click ev page p) hidden

-- Where the tasks fit on one page: whatever is clicked, the page does not change, not even where it is
-- a page that has no tasks any more.
pub turn_all-stuck :
    (evs : List PagerEvent) (total size page : ℕ)
    → total ≤ size
    → 1 ≤ size
    → turn_all (map (λ ev. (ev, (total, size))) evs) page ≡ page
unfolding turn_all
turn_all-stuck [] total size page few some_size = refl
turn_all-stuck (ev ∷ evs) total size page few some_size =
    ap (turn_all (map (λ e. (e, (total, size))) evs)) (turn-stuck ev total size page few some_size)
    ∙ turn_all-stuck evs total size page few some_size
