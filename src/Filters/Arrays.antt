-- ===== src/Filters/Arrays.antt =====
-- `toggleArrayFilter`.
use mathlib.Core.Path.{subst}
use marc_comparator.Base.{
  ◌≡◌, refl, not, List, [], ◌∷◌, arith, ◌==◌, if◌then◌else◌, eq_iff, ◌≢◌, Bool-cases, inl, inr, ap,
  sym, ◌∙◌,
}
use marc_comparator.Base.Text.{Text, text_eq}
use marc_comparator.Base.Int.{pos}
use marc_comparator.Base.Sets.{
  includes, includes-append, includes-delete, IsDistinct, IsDistinct-concat, IsDistinct-delete,
}
use marc_comparator.Filters.Types.{Filters, ArrayField, bases, array}
use marc_comparator.Filters.Operations.{get_array, set_array, toggle_value, toggle_array_filter}

-- The value that is toggled changes sides; every other value stays where it was.
pub includes-toggle_value :
    (xs : List Text) (v w : Text)
    → includes (toggle_value xs v) w ≡ (if v == w then not (includes xs w) else includes xs w)
unfolding toggle_value includes
includes-toggle_value xs v w =
    ground (arith, includes-append xs (v ∷ []) w, includes-delete xs v w, eq_iff v w)

toggle_value-IsDistinct :
    (xs : List Text) (v : Text) → IsDistinct xs → IsDistinct (toggle_value xs v)
unfolding toggle_value
toggle_value-IsDistinct xs v d = elim (Bool-cases (includes xs v)) [
  | inl held ↦ rw held (IsDistinct-delete xs v d)
  | inr free ↦ rw free (IsDistinct-concat xs v d free)
]

ArrayField-discrete : Discrete ArrayField
ArrayField-discrete = hlevel

module _ {S : Type 0} where
  get_array-set_array :
      (f : Filters S) (a : ArrayField) (xs : List Text) → get_array (set_array a xs f) a ≡ xs
  unfolding get_array set_array
  get_array-set_array f bases xs = refl
  get_array-set_array f _ xs = refl

  get_array-set_array_ne :
      (f : Filters S) (a b : ArrayField) (xs : List Text)
      → a ≢ b
      → get_array (set_array a xs f) b ≡ get_array f b
  unfolding get_array set_array
  get_array-set_array_ne f a b xs h = ground arith

  page-set_array :
      (f : Filters S) (a : ArrayField) (xs : List Text) → (set_array a xs f).page ≡ pos 1
  unfolding set_array
  page-set_array f bases xs = refl
  page-set_array f _ xs = refl

  -- The filters that are no arrays and not the page.
  abbrev pub SameScalars : Filters S → Filters S → Type 0
  SameScalars f g =
      (f.tab ≡ g.tab)
      × (f.page_size ≡ g.page_size)
      × (f.sort_by ≡ g.sort_by)
      × (f.sort_order ≡ g.sort_order)
      × (f.search_text ≡ g.search_text)
      × (f.deleted ≡ g.deleted)
      × (f.processed ≡ g.processed)
      × (f.score_min ≡ g.score_min)
      × (f.score_max ≡ g.score_max)
      × (f.record_id ≡ g.record_id)
      × (f.record_index ≡ g.record_index)
      × (f.carousel_view ≡ g.carousel_view)

  pub set_array-SameScalars :
      (f : Filters S) (a : ArrayField) (xs : List Text) → SameScalars (set_array a xs f) f
  unfolding set_array
  set_array-SameScalars f bases xs =
      (refl, refl, refl, refl, refl, refl, refl, refl, refl, refl, refl, refl)
  set_array-SameScalars f _ xs =
      (refl, refl, refl, refl, refl, refl, refl, refl, refl, refl, refl, refl)

  -- Toggling a value `v` of an array filter `a` puts it in where it was not and takes it out where
  -- it was, keeps every other value of that array and each other array `b`, goes back to the first
  -- page, and changes no other filter.
  pub toggle_array_filter_lem :
      (f : Filters S) (a b : ArrayField) (v w : Text)
      → a ≢ b
      → (includes (get_array (toggle_array_filter (array a) v f) a) w
          ≡ (if v == w then not (includes (get_array f a) w) else includes (get_array f a) w))
        × (get_array (toggle_array_filter (array a) v f) b ≡ get_array f b)
        × ((toggle_array_filter (array a) v f).page ≡ pos 1)
        × SameScalars (toggle_array_filter (array a) v f) f
  unfolding toggle_array_filter
  toggle_array_filter_lem f a b v w h = (
    rw get_array-set_array (includes-toggle_value (get_array f a) v w),
    get_array-set_array_ne f a b _ h,
    page-set_array f a _,
    set_array-SameScalars f a _,
  )

  pub toggle_array_filter_self :
      (f : Filters S) (a : ArrayField) (v w : Text)
      → includes (get_array (toggle_array_filter (array a) v f) a) w
        ≡ (if v == w then not (includes (get_array f a) w) else includes (get_array f a) w)
  unfolding toggle_array_filter
  toggle_array_filter_self f a v w =
      rw get_array-set_array (includes-toggle_value (get_array f a) v w)

  -- Toggling the same value twice leaves each array with the values that it had.
  pub toggle_array_filter_twice :
      (f : Filters S) (a b : ArrayField) (v w : Text)
      → includes
          (get_array (toggle_array_filter (array a) v (toggle_array_filter (array a) v f)) b)
          w
        ≡ includes (get_array f b) w
  toggle_array_filter_twice f a b v w = elim (ArrayField-discrete a b) [
    | yes same ↦
        subst
          (λ c.
            includes
              (get_array (toggle_array_filter (array a) v (toggle_array_filter (array a) v f)) c) w
            ≡ includes (get_array f c) w)
          same
          (ground (
            arith,
            toggle_array_filter_self (toggle_array_filter (array a) v f) a v w,
            toggle_array_filter_self f a v w,
          ))
    | no other ↦
        ap (λ xs. includes xs w)
          ((toggle_array_filter_lem (toggle_array_filter (array a) v f) a b v w other).1
            ∙ (toggle_array_filter_lem f a b v w other).1)
  ]

  -- An array filter without repetitions has none after a toggle either.
  pub toggle_array_filter-IsDistinct :
      (f : Filters S) (a b : ArrayField) (v : Text)
      → IsDistinct (get_array f b)
      → IsDistinct (get_array (toggle_array_filter (array a) v f) b)
  unfolding toggle_array_filter
  toggle_array_filter-IsDistinct f a b v d = elim (ArrayField-discrete a b) [
    | yes same ↦
        subst (λ c. IsDistinct (get_array (set_array a (toggle_value (get_array f a) v) f) c)) same
          (rw get_array-set_array (
            toggle_value-IsDistinct (get_array f a) v
              (subst (λ c. IsDistinct (get_array f c)) (sym same) d)))
    | no other ↦ rw (get_array-set_array_ne f a b (toggle_value (get_array f a) v) other) d
  ]
