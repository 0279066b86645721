-- ===== src/Carousel/Navigation.antt =====
-- The component `CarouselView` of client/src/features/records/carousel/carousel-view.tsx, the
-- position that client/src/features/records/records-page.tsx shows, and the paging keys and buttons
-- of client/src/features/records/table/table-view.tsx.
pub mod Position
pub mod Index
mod Tests
use marc_comparator.Base.{
  ℕ, ◌+◌, ◌-◌, ◌*◌, ◌/◌, ◌≡◌, Bool, true, false, not, ◌&&◌, ◌||◌, Option, none, some, List, [], ◌∷◌,
  length, get_elem?, is_empty, ◌==◌, if◌then◌else◌, leb, ltb, nat_eqb, suc,
}
use marc_comparator.Base.Text.{Text, lit, text_eq, truthy}
use marc_comparator.Base.Int.{ℤ, pos, negsuc, ◌+ℤ◌, ◌-ℤ◌, ◌*ℤ◌, ltb_ℤ, leb_ℤ, min_ℤ, max_ℤ}
use marc_comparator.Filters.{Filters}

-- `xs[i]`, with `undefined` as `none`.
abbrev pub get_at {ℓ} : {A : Type ℓ} → List A → ℤ → Option A
get_at xs (pos i) = get_elem? xs i
get_at xs (negsuc i) = none

-- A key press; `typing` tells that it goes to an input or a text area.
pub record KeyPress : Type 0 where
  pub typing : Bool
  pub key : Text

-- What the component shows: a message, a record alone, or a record between the two buttons, with
-- whether each is enabled. A record that is `undefined` is `none`.
pub data Screen {ℓ} (A : Type ℓ) : Type ℓ where
  no_record : Screen A
  single : Option A → Screen A
  carousel : Option A → (prev next : Bool) → Screen A

-- `Math.ceil(total / pageSize)`, for a positive page size.
unfoldable pub total_pages : ℕ → ℕ → ℕ
total_pages total page_size = (total + page_size - 1) / page_size

module _ {S : Type 0} where
  -- `count` is `records.length`.
  unfoldable pub record_index : Filters S → ℕ → ℤ
  unfolding ◌-ℤ◌
  record_index f count = min_ℤ f.record_index (max_ℤ (pos 0) (pos count -ℤ pos 1))

  unfoldable pub current_record {ℓ} : {A : Type ℓ} → Filters S → List A → Option A
  current_record f records =
      if ltb 0 (length records) then get_at records (record_index f (length records)) else none

  -- The effect that clamps the index when fewer records than expected arrive.
  unfoldable pub clamp_record_index : Filters S → ℕ → Filters S
  unfolding ◌-ℤ◌
  clamp_record_index f count =
      if ltb 0 count && leb_ℤ (pos count) f.record_index
      then record f { record_index = pos count -ℤ pos 1 }
      else f

  unfoldable pub can_go_prev : Filters S → ℕ → Bool
  unfolding record_index
  can_go_prev f count = ltb_ℤ (pos 0) (record_index f count) || ltb_ℤ (pos 1) f.page

  unfoldable pub can_go_next : Filters S → ℕ → ℕ → Bool
  unfolding record_index ◌-ℤ◌ ◌*ℤ◌
  can_go_next f count total =
      ltb_ℤ (record_index f count) (pos count -ℤ pos 1) || ltb_ℤ (f.page *ℤ f.page_size) (pos total)

  unfoldable pub go_to_prev : Filters S → ℕ → Filters S
  unfolding record_index ◌-ℤ◌
  go_to_prev f count =
      if ltb_ℤ (pos 0) (record_index f count)
      then record f { record_index = record_index f count -ℤ pos 1 }
      else if ltb_ℤ (pos 1) f.page
      then record f { page = f.page -ℤ pos 1; record_index = f.page_size -ℤ pos 1 }
      else f

  unfoldable pub go_to_next : Filters S → ℕ → ℕ → Filters S
  unfolding record_index ◌-ℤ◌ ◌+ℤ◌ ◌*ℤ◌
  go_to_next f count total =
      if ltb_ℤ (record_index f count) (pos count -ℤ pos 1)
      then record f { record_index = record_index f count +ℤ pos 1 }
      else if ltb_ℤ (f.page *ℤ f.page_size) (pos total)
      then record f { page = f.page +ℤ pos 1; record_index = pos 0 }
      else f

  -- The handler of the keys "a" and "d".
  unfoldable pub handle_key : KeyPress → Filters S → ℕ → ℕ → Filters S
  handle_key e f count total =
      if e.typing
      then f
      else if e.key == lit "a" && can_go_prev f count
      then go_to_prev f count
      else if e.key == lit "d" && can_go_next f count total
      then go_to_next f count total
      else f

  unfoldable pub screen {ℓ} : {A : Type ℓ} → Filters S → List A → ℕ → Screen A
  unfolding current_record can_go_prev can_go_next
  screen f [] total = no_record
  screen f (r ∷ records) total =
      if nat_eqb (length (r ∷ records)) 1 && leb total 1
      then single (some r)
      else carousel (current_record f (r ∷ records)) (can_go_prev f (length (r ∷ records)))
          (can_go_next f (length (r ∷ records)) total)

  -- `selectedView` and `setSelectedView`.
  unfoldable pub selected_view : Filters S → Text
  selected_view f = if truthy f.carousel_view then f.carousel_view else lit "marc"

  unfoldable pub set_selected_view : Text → Filters S → Filters S
  set_selected_view v f = record f { carousel_view = if v == lit "marc" then [] else v }

  -- `resolvedIndex` of the page: the place of the shown record among all that were found.
  unfoldable pub resolved_index : Filters S → ℕ → Option ℤ
  unfolding ◌-ℤ◌ ◌+ℤ◌ ◌*ℤ◌
  resolved_index f count =
      if ltb 0 count
      then some ((f.page -ℤ pos 1) *ℤ f.page_size +ℤ min_ℤ f.record_index (pos count -ℤ pos 1))
      else none

  -- The handler of the keys "a" and "d" in the table.
  unfoldable pub handle_table_key : KeyPress → ℕ → Filters S → Filters S
  unfolding ◌-ℤ◌ ◌+ℤ◌
  handle_table_key e pages f =
      if e.typing
      then f
      else if e.key == lit "a" && ltb_ℤ (pos 1) f.page
      then record f { page = f.page -ℤ pos 1 }
      else if e.key == lit "d" && ltb_ℤ f.page (pos pages)
      then record f { page = f.page +ℤ pos 1 }
      else f
