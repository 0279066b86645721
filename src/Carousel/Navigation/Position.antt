-- ===== src/Carousel/Navigation/Position.antt =====
-- The carousel as a walk over all the records that were found, one after the other.
use marc_comparator.Base.{
  ℕ, ◌+◌, ◌-◌, ◌*◌, ◌<◌, min, suc, ◌≡◌, refl, some, if◌then◌else◌, ltb, arith, Bool-cases, inl, inr,
  ap, ◌∙◌,
}
use marc_comparator.Base.Int.{pos}
use marc_comparator.Filters.{Filters}
use marc_comparator.Carousel.Navigation.{
  can_go_prev, can_go_next, go_to_prev, go_to_next, resolved_index,
}

-- The state at record `i` of page `p`, both counted from 0, with pages of `suc k` records.
abbrev pub at : {S : Type 0} → (p k i : ℕ) → Filters S → Filters S
at p k i f = record f { page = pos (suc p); page_size = pos (suc k); record_index = pos i }

-- The number of records on page `p`.
abbrev pub page_count : (p k total : ℕ) → ℕ
page_count p k total = min (suc k) (total - p * suc k)

-- The page and the index that follow index `i` of page `p`.
abbrev pub next_page : (p k i : ℕ) → ℕ
next_page p k i = if ltb (suc i) (suc k) then p else suc p

abbrev pub next_index : (k i : ℕ) → ℕ
next_index k i = if ltb (suc i) (suc k) then suc i else 0

module _ {S : Type 0} (f : Filters S) (p k : ℕ) where
  prev_inside : (i count : ℕ) → suc i < count → go_to_prev (at p k (suc i) f) count ≡ at p k i f
  unfolding go_to_prev
  prev_inside i count h = grind arith

  prev_over : (count : ℕ) → 0 < count → go_to_prev (at (suc p) k 0 f) count ≡ at p k k f
  unfolding go_to_prev
  prev_over count h = grind arith

module _ {S : Type 0} (f : Filters S) (p k i total : ℕ) (fits : i < suc k)
    (found : p * suc k + i < total) where
  can_go_next-at :
      can_go_next (at p k i f) (page_count p k total) total ≡ ltb (p * suc k + i + 1) total
  unfolding can_go_next
  can_go_next-at = grind arith

  go_to_next_inside :
      suc i < page_count p k total
      → go_to_next (at p k i f) (page_count p k total) total ≡ at p k (suc i) f
  unfolding go_to_next
  go_to_next_inside h = grind arith

  go_to_next_over :
      suc i ≡ page_count p k total
      → suc p * suc k < total
      → go_to_next (at p k i f) (page_count p k total) total ≡ at (suc p) k 0 f
  unfolding go_to_next
  go_to_next_over h more = grind arith

  go_to_next-at :
      p * suc k + suc i < total
      → go_to_next (at p k i f) (page_count p k total) total
        ≡ at (next_page p k i) k (next_index k i) f
  go_to_next-at more = elim (Bool-cases (ltb (suc i) (suc k))) [
    | inl inside ↦ rw inside (go_to_next_inside (grind arith))
    | inr over ↦ rw over (go_to_next_over (grind arith) (grind arith))
  ]

  next_position : next_page p k i * suc k + next_index k i ≡ p * suc k + suc i
  next_position = elim (Bool-cases (ltb (suc i) (suc k))) [
    | inl inside ↦ rw inside refl
    | inr over ↦ rw over (grind arith)
  ]

  go_to_prev_next :
      p * suc k + suc i < total
      → go_to_prev
          (at (next_page p k i) k (next_index k i) f)
          (page_count (next_page p k i) k total)
        ≡ at p k i f
  go_to_prev_next more = elim (Bool-cases (ltb (suc i) (suc k))) [
    | inl inside ↦ rw inside (prev_inside f p k i (page_count p k total) (grind arith))
    | inr over ↦
        let last : k ≡ i = grind arith in
        rw over
          (prev_over f p k (page_count (suc p) k total) (grind arith) ∙ ap (λ j. at p k j f) last)
  ]

  resolved_index-at :
      resolved_index (at p k i f) (page_count p k total) ≡ some (pos (p * suc k + i))
  unfolding resolved_index
  resolved_index-at = grind arith

  can_go_prev-at : can_go_prev (at p k i f) (page_count p k total) ≡ ltb 0 (p * suc k + i)
  unfolding can_go_prev
  can_go_prev-at = grind arith

  go_to_next_last :
      suc (p * suc k + i) ≡ total
      → go_to_next (at p k i f) (page_count p k total) total ≡ at p k i f
  unfolding go_to_next
  go_to_next_last h = grind arith

  go_to_prev_first : p * suc k + i ≡ 0 → go_to_prev (at p k i f) (page_count p k total) ≡ at p k i f
  unfolding go_to_prev
  go_to_prev_first h = grind arith

-- At a record that was found, on a page that the server has filled, the position that the page
-- shows is the number of the records before it, and the buttons are enabled exactly where there is a
-- record before or after it.
pub position_at :
    {S : Type 0} (f : Filters S) (p k i total : ℕ)
    → i < suc k
    → p * suc k + i < total
    → (resolved_index (at p k i f) (page_count p k total) ≡ some (pos (p * suc k + i)))
      × (can_go_prev (at p k i f) (page_count p k total) ≡ ltb 0 (p * suc k + i))
      × (can_go_next (at p k i f) (page_count p k total) total ≡ ltb (p * suc k + i + 1) total)
position_at f p k i total fits found = (
  resolved_index-at f p k i total fits found,
  can_go_prev-at f p k i total fits found,
  can_go_next-at f p k i total fits found,
)

-- While a record follows, `goToNext` moves to the record whose position is one higher, on this page
-- or at the start of the next one, and `goToPrev` from there moves back to the very same state.
pub go_to_next-position :
    {S : Type 0} (f : Filters S) (p k i total : ℕ)
    → i < suc k
    → p * suc k + suc i < total
    → (go_to_next (at p k i f) (page_count p k total) total
        ≡ at (next_page p k i) k (next_index k i) f)
      × (next_page p k i * suc k + next_index k i ≡ p * suc k + suc i)
      × (go_to_prev
            (at (next_page p k i) k (next_index k i) f)
            (page_count (next_page p k i) k total)
          ≡ at p k i f)
go_to_next-position f p k i total fits more =
    let found : p * suc k + i < total = omega arith in
    (
      go_to_next-at f p k i total fits found more,
      next_position f p k i total fits found,
      go_to_prev_next f p k i total fits found more,
    )

-- At the last record `goToNext` changes nothing, and at the first one `goToPrev` does not.
pub go_to_next-at_ends :
    {S : Type 0} (f : Filters S) (k i total : ℕ) (p : ℕ)
    → i < suc k
    → suc (p * suc k + i) ≡ total
    → (go_to_next (at p k i f) (page_count p k total) total ≡ at p k i f)
      × (go_to_prev (at 0 k 0 f) (page_count 0 k total) ≡ at 0 k 0 f)
go_to_next-at_ends f k i total p fits last = (
  go_to_next_last f p k i total fits (omega arith) last,
  go_to_prev_first f 0 k 0 total (omega arith) (omega arith) (omega arith),
)
