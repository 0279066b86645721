-- ===== src/Facets/Preview.antt =====
-- The previews of plots-view.tsx and use-facets.ts: what the charts would show with the hovered value,
-- and the buckets that the sections are drawn from. Numbers of a histogram are a parameter.
use marc_comparator.Base.{
  ℕ, ◌≡◌, refl, Bool, true, false, ◌||◌, Option, none, some, List, [], ◌∷◌, any, find?,
  if◌then◌else◌, ◌==◌, ◌>>=◌, eq_refl, Bool-cases, inl, inr,
}
use marc_comparator.Base.Text.{Text, text_eq, truthy}
use marc_comparator.Base.Sets.{includes}
use marc_comparator.Filters.{Filters}
use marc_comparator.Facets.{get_active_values}

pub record FacetBucket : Type 0 where
  pub key : Text
  pub count : ℕ

pub record FacetResult : Type 0 where
  pub field : Text
  pub buckets : List FacetBucket

pub record HistogramBucket (S : Type 0) : Type 0 where
  pub min : S
  pub max : S
  pub count : ℕ

pub record HistogramResult (S : Type 0) : Type 0 where
  pub field : Text
  pub buckets : List (HistogramBucket S)

pub record FacetsResponse (S : Type 0) : Type 0 where
  pub facets : List FacetResult
  pub histograms : List (HistogramResult S)
  pub total : ℕ

pub record FacetsPreviewEntry (S : Type 0) : Type 0 where
  pub target_value : Text
  pub facets : List FacetResult
  pub histograms : List (HistogramResult S)
  pub total : ℕ

pub record FacetsPreviewResponse (S : Type 0) : Type 0 where
  pub target_field : Text
  pub previews : List (FacetsPreviewEntry S)

-- The chart and the value under the pointer.
pub record Hover : Type 0 where
  pub hovered_field : Option Text
  pub hovered_value : Option Text

-- `x ?? []`.
abbrev pub or_empty {ℓ} : {A : Type ℓ} → Option (List A) → List A
or_empty none = []
or_empty (some xs) = xs

abbrev pub is_field : Option Text → Text → Bool
is_field none field = false
is_field (some hovered) field = field == hovered

-- `new Map(facets.map((f) => [f.field, f]))`: of two facets of a field the last one counts.
unfoldable pub get_facet : List FacetResult → Text → Option FacetResult
get_facet [] field = none
get_facet (f ∷ fs) field = elim (get_facet fs field) [
  | some later ↦ some later
  | none ↦ if f.field == field then some f else none
]

abbrev pub on_leave : Hover → Hover
on_leave hover = record { hovered_field = none; hovered_value = none }

module _ {S : Type 0} where
  unfoldable pub get_buckets : FacetsResponse S → Text → List FacetBucket
  unfolding get_facet
  get_buckets facets field = elim (get_facet facets.facets field) [ none ↦ [] | some f ↦ f.buckets ]

  -- `usePreviewForValue`; `data` is what the cache has for the hovered field.
  unfoldable pub use_preview_for_value :
      (data_of : Text → Option (FacetsPreviewResponse S)) → Hover → Option (FacetsResponse S)
  use_preview_for_value data_of hover = do
    value ← hover.hovered_value
    preview ← data_of (elim hover.hovered_field [ none ↦ [] | some field ↦ field ])
    entry ← (if truthy value then find? (λ p. p.target_value == value) preview.previews else none)
    some (record { facets = entry.facets; histograms = entry.histograms; total = entry.total })

  unfoldable pub get_preview_buckets :
      Filters S → Hover → Option (FacetsResponse S) → Text → Option (List FacetBucket)
  get_preview_buckets f hover preview_facets field =
      if truthy f.record_id || is_field hover.hovered_field field
      then none
      else elim preview_facets [
        | none ↦ none
        | some preview ↦ elim (find? (λ r. r.field == field) preview.facets) [
          | none ↦ some []
          | some r ↦ some r.buckets
        ]
      ]

  -- `onHover` and `onLeave` of `makeChartHandlers`.
  unfoldable pub on_hover : Filters S → Text → Text → Hover → Hover
  on_hover f field value hover =
      if truthy f.record_id
      then hover
      else if includes (get_active_values f field) value
      then hover
      else record { hovered_field = some field; hovered_value = some value }

  no_preview :
      (f : Filters S) (hover : Hover) (preview : Option (FacetsResponse S)) (field : Text)
      → (truthy f.record_id || is_field hover.hovered_field field) ≡ true
      → get_preview_buckets f hover preview field ≡ none
  unfolding get_preview_buckets
  no_preview f hover preview field h = rw h refl

  on_hover-own :
      (f : Filters S) (hover : Hover) (field value : Text)
      → includes (get_active_values f field) value ≡ false
      → (truthy f.record_id || is_field (on_hover f field value hover).hovered_field field) ≡ true
  unfolding on_hover
  on_hover-own f hover field value h = elim (Bool-cases (truthy f.record_id)) [
    | inl one ↦ rw one refl
    | inr any ↦ rw (any, h) (eq_refl field)
  ]

  preview-left :
      (f : Filters S) (data_of : Text → Option (FacetsPreviewResponse S)) (hover : Hover)
      (field : Text)
      → get_preview_buckets f
          (on_leave hover)
          (use_preview_for_value data_of (on_leave hover))
          field
        ≡ none
  unfolding get_preview_buckets use_preview_for_value
  preview-left f data_of hover field = elim (Bool-cases (truthy f.record_id)) [
    | inl one ↦ rw one refl
    | inr any ↦ rw any refl
  ]

  -- While a value is hovered that is not active, its own chart shows no preview, and no chart shows
  -- one after the pointer has left.
  pub preview-hover :
      (f : Filters S) (data_of : Text → Option (FacetsPreviewResponse S)) (field other value : Text)
      (hover : Hover)
      → includes (get_active_values f field) value ≡ false
      → (get_preview_buckets f
            (on_hover f field value hover)
            (use_preview_for_value data_of (on_hover f field value hover))
            field
          ≡ none)
        × (get_preview_buckets f
              (on_leave hover)
              (use_preview_for_value data_of (on_leave hover))
              other
            ≡ none)
  preview-hover f data_of field other value hover h = (
    no_preview f (on_hover f field value hover) _ field (on_hover-own f hover field value h),
    preview-left f data_of hover other,
  )
