-- ===== src/Table.antt =====
-- The table of records: client/src/features/records/table/table-view.tsx, columns.tsx and
-- column-config.tsx. The paging keys stand in Carousel.Navigation, beside those of the carousel.
pub mod Search
pub mod Badges
mod Tests
use marc_comparator.Base.{
  ℕ, suc, ◌≡◌, Bool, true, false, not, ◌&&◌, ◌||◌, Option, none, some, List, [], ◌∷◌, ◌++◌, map,
  is_empty, if◌then◌else◌, ◌==◌, length, or_else,
}
use marc_comparator.Base.Text.{Text, lit, text_eq, truthy}
use marc_comparator.Base.Int.{ℤ, pos, ◌+ℤ◌, ◌-ℤ◌, leb_ℤ}
use marc_comparator.Base.Sets.{includes}
use marc_comparator.Filters.{
  Filters, table, carousel, SortBy, SortOrder, asc, desc, by_id, by_base, by_system_number,
  by_latest_sync, by_updated_at, by_comparison_score,
}
use marc_comparator.Records.{RecordSummary}

abbrev pub page_sizes : List ℕ
page_sizes = 10 ∷ 25 ∷ 50 ∷ 100 ∷ 1000 ∷ []

abbrev pub sortable_columns : List Text
sortable_columns =
    lit "base" ∷ lit "system_number" ∷ lit "latest_sync" ∷ lit "comparison_score" ∷ []

-- The columns by their identifiers, each with whether it can be sorted by.
abbrev pub columns : List (Text × Bool)
columns =
    (lit "base", includes sortable_columns (lit "base"))
    ∷ (lit "system_number", includes sortable_columns (lit "system_number"))
    ∷ (lit "title", false)
    ∷ (lit "authors", false)
    ∷ (lit "state", false)
    ∷ (lit "authority_links", false)
    ∷ (lit "comparison_score", includes sortable_columns (lit "comparison_score"))
    ∷ (lit "validations", false)
    ∷ (lit "latest_sync", includes sortable_columns (lit "latest_sync"))
    ∷ []

-- A value of `sortBy` as the text that it is.
abbrev pub sort_text : SortBy → Text
sort_text by_id = lit "id"
sort_text by_base = lit "base"
sort_text by_system_number = lit "system_number"
sort_text by_latest_sync = lit "latest_sync"
sort_text by_updated_at = lit "updated_at"
sort_text by_comparison_score = lit "comparison_score"

abbrev pub is_desc : SortOrder → Bool
is_desc desc = true
is_desc asc = false

abbrev pub order_of : Bool → SortOrder
order_of true = desc
order_of false = asc

-- What the cells of a record show for its title and its authors.
abbrev pub title_cell : {S : Type 0} → RecordSummary S → Text
title_cell r = or_else r.title (lit "-")

unfoldable pub join_authors : List Text → Text
join_authors [] = []
join_authors (a ∷ []) = a
join_authors (a ∷ b ∷ more) = a ++ lit ", " ++ join_authors (b ∷ more)

unfoldable pub authors_cell : {S : Type 0} → RecordSummary S → Text
unfolding join_authors
authors_cell r = if is_empty r.authors then lit "-" else join_authors r.authors

-- What stands above the table: the actions that the permissions allow.
pub record Actions : Type 0 where
  pub process : Bool
  pub advanced : Bool

-- `none` where no action is shown at all; a permission that is not known yet is not one.
unfoldable pub bulk_actions : (can_process can_run_partial : Option Bool) → Option Actions
bulk_actions can_process can_run_partial =
    let process = or_else can_process false in
    let advanced = or_else can_run_partial false in
    if process || advanced then some (record { process = process; advanced = advanced }) else none

-- The rows below the header: skeletons while loading, a message, or the records.
pub data Rows (A : Type 0) : Type 0 where
  skeletons : Rows A
  no_data : Rows A
  rows : List A → Rows A

unfoldable pub body : {A : Type 0} → Bool → Option (List A) → Rows A
body true items = skeletons
body false none = no_data
body false (some []) = no_data
body false (some (r ∷ rs)) = rows (r ∷ rs)

-- A column in the dialog that shows and hides columns: the one that the table is sorted by is
-- disabled there.
pub record ColumnBox : Type 0 where
  pub column : Text
  pub is_visible : Bool
  pub is_disabled : Bool

unfoldable pub column_boxes : (Text → Bool) → Text → List Text → List ColumnBox
column_boxes is_visible sorted [] = []
column_boxes is_visible sorted (c ∷ cs) =
    record { column = c; is_visible = is_visible c; is_disabled = c == sorted }
    ∷ column_boxes is_visible sorted cs

module _ {S : Type 0} where
  unfoldable pub sorting : Filters S → Text × Bool
  sorting f = (sort_text f.sort_by, is_desc f.sort_order)

  -- `onSortingChange`, for what the table library computed.
  unfoldable pub on_sorting_change : List (SortBy × Bool) → Filters S → Filters S
  on_sorting_change [] f = f
  on_sorting_change ((column, descending) ∷ more) f = record f {
    sort_by = column;
    sort_order = order_of descending;
    page = pos 1;
  }

  -- A click on a row, and on a badge of a row.
  unfoldable pub open_row : ℕ → Filters S → Filters S
  open_row row f = record f { tab = carousel; record_index = pos row }

  unfoldable pub on_navigate : ℕ → Text → Filters S → Filters S
  on_navigate row key f = record f { tab = carousel; record_index = pos row; carousel_view = key }

  -- The badge with the filter on one record.
  unfoldable pub clear_record_id : Filters S → Filters S
  clear_record_id f = record f { record_id = []; record_index = pos 0 }

  unfoldable pub set_page_size : ℕ → Filters S → Filters S
  set_page_size size f = record f { page_size = pos size; page = pos 1 }

  -- The two buttons, disabled at the ends.
  unfoldable pub previous_page : Filters S → Filters S
  unfolding ◌-ℤ◌
  previous_page f = if leb_ℤ f.page (pos 1) then f else record f { page = f.page -ℤ pos 1 }

  unfoldable pub next_page : ℕ → Filters S → Filters S
  unfolding ◌+ℤ◌
  next_page pages f = if leb_ℤ (pos pages) f.page then f else record f { page = f.page +ℤ pos 1 }
