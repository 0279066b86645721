-- ===== src/Facets/Active.antt =====
-- The toggle of a value of a chart, against the values that the chart shows as active.
use mathlib.Core.Bool.{false≢true}
use mathlib.Core.Path.{subst}
use marc_comparator.Base.{
  ◌≡◌, ◌≢◌, refl, sym, ap, ◌∙◌, Bool, true, false, not, ◌&&◌, ◌||◌, some, List, [], ◌∷◌, filter,
  if◌then◌else◌, ◌==◌, arith, Bool-cases, inl, inr, eq_iff, eq_refl, eq-false_of_ne, present,
}
use marc_comparator.Base.Text.{Text, lit, text_eq, text_eqb, truthy}
use marc_comparator.Base.Sets.{includes}
use marc_comparator.Filters.{
  Filters, ArrayField, bases, get_array, toggle_value, toggle_array_filter,
}
use marc_comparator.Filters.Arrays.{
  toggle_array_filter_lem, toggle_array_filter_self, set_array-SameScalars,
}
use marc_comparator.Base.Int.{pos}
use marc_comparator.Facets.{
  FilterKey, array_key, deleted_key, processed_key, facet_to_url_param, lookup, deleted_labels,
  processed_labels, labels_of, flag_after, toggle_flag, values_of_key, toggle_key, values_of,
  toggle_of, get_active_values, handle_toggle,
}

-- The values that a chart of the key offers: any text, or the two labels of a flag.
abbrev pub offers : FilterKey → Text → Bool
offers (array_key field) value = true
offers deleted_key value = present (lookup deleted_labels value)
offers processed_key value = present (lookup processed_labels value)

unlike : (a b : Text) → (a == b) ≡ false → (b == a) ≡ false
unlike a b h = eq-false_of_ne b a (λ p. false≢true (sym h ∙ (eq_iff a b).1 (sym p)))

-- Two labels, and the different values that they stand for.
module _ (l m t u : Text) where
  abbrev two : List (Text × Text)
  two = (l, t) ∷ (m, u) ∷ []

  includes-labels_of :
      (c v : Text)
      → includes (labels_of two c) v ≡ (truthy c && ((t == c && l == v) || (u == c && m == v)))
  unfolding labels_of includes filter
  includes-labels_of c v = ground arith

  lookup_first : lookup two l ≡ some t
  unfolding lookup
  lookup_first = rw (eq_refl l) refl

  lookup_second : (l == m) ≡ false → lookup two m ≡ some u
  unfolding lookup
  lookup_second differ = rw (differ, eq_refl m) refl

  toggle_flag_first : (c : Text) → toggle_flag two l c ≡ (if c == t then [] else t)
  unfolding toggle_flag
  toggle_flag_first c = ap (λ o. flag_after o c) lookup_first

  flag_first :
      (c : Text)
      → truthy t ≡ true
      → (m == l) ≡ false
      → includes (labels_of two (toggle_flag two l c)) l ≡ not (includes (labels_of two c) l)
  flag_first c nonempty differ = elim (Bool-cases (c == t)) [
    | inl e ↦
        rw
          (
            toggle_flag_first c,
            e,
            includes-labels_of [] l,
            includes-labels_of c l,
            (eq_iff c t).0 e,
          )
          (ground (arith, nonempty, eq_refl t, eq_refl l))
    | inr e ↦
        rw (toggle_flag_first c, e, includes-labels_of t l, includes-labels_of c l, unlike c t e)
          (ground (arith, nonempty, eq_refl t, eq_refl l, differ))
  ]

  toggle_flag_second :
      (c : Text) → (l == m) ≡ false → toggle_flag two m c ≡ (if c == u then [] else u)
  unfolding toggle_flag
  toggle_flag_second c differ = ap (λ o. flag_after o c) (lookup_second differ)

  flag_second :
      (c : Text)
      → truthy u ≡ true
      → (l == m) ≡ false
      → includes (labels_of two (toggle_flag two m c)) m ≡ not (includes (labels_of two c) m)
  flag_second c nonempty differ = elim (Bool-cases (c == u)) [
    | inl e ↦
        rw
          (
            toggle_flag_second c differ,
            e,
            includes-labels_of [] m,
            includes-labels_of c m,
            (eq_iff c u).0 e,
          )
          (ground (arith, nonempty, eq_refl u, eq_refl m))
    | inr e ↦
        rw
          (
            toggle_flag_second c differ,
            e,
            includes-labels_of u m,
            includes-labels_of c m,
            unlike c u e,
          )
          (ground (arith, nonempty, eq_refl u, eq_refl m, differ))
  ]

  two_labels : (P : Text → Type 0) (v : Text) → present (lookup two v) ≡ true → P l → P m → P v
  unfolding lookup
  two_labels P v h first second = elim (Bool-cases (l == v)) [
    | inl e ↦ subst P ((eq_iff l v).0 e) first
    | inr e ↦ elim (Bool-cases (m == v)) [
      | inl k ↦ subst P ((eq_iff m v).0 k) second
      | inr k ↦ absurd (false≢true (sym (rw (e, k) refl) ∙ h))
    ]
  ]

  flag_toggled :
      (c v : Text)
      → present (lookup two v) ≡ true
      → ((truthy t && truthy u) && not (m == l || l == m)) ≡ true
      → includes (labels_of two (toggle_flag two v c)) v ≡ not (includes (labels_of two c) v)
  flag_toggled c v h apart =
      two_labels
        (λ w. includes (labels_of two (toggle_flag two w c)) w ≡ not (includes (labels_of two c) w))
        v h (flag_first c (ground (arith, apart)) (ground (arith, apart)))
        (flag_second c (ground (arith, apart)) (ground (arith, apart)))

module _ {S : Type 0} where
  -- After the toggle of a value that the chart offers, the value is active exactly when it was not.
  toggle_key_self :
      (f : Filters S) (key : FilterKey) (value : Text)
      → offers key value ≡ true
      → includes (values_of_key (toggle_key key value f) key) value
        ≡ not (includes (values_of_key f key) value)
  unfolding values_of_key toggle_key text_eqb
  toggle_key_self f (array_key field) value h =
      toggle_array_filter_self f field value value ∙ rw (eq_refl value) refl
  toggle_key_self f deleted_key value h =
      flag_toggled (lit "Deleted") (lit "Active") (lit "true") (lit "false") f.deleted value h refl
  toggle_key_self f processed_key value h =
      flag_toggled (lit "Processed") (lit "Unprocessed") (lit "true") (lit "false") f.processed
        value h refl

  get_array-flags :
      (f : Filters S) (a : ArrayField) (d p : Text)
      → get_array (record f { deleted = d; processed = p; page = pos 1 }) a ≡ get_array f a
  unfolding get_array
  get_array-flags f bases d p = refl
  get_array-flags f _ d p = refl

  -- The toggle of one key leaves the values of each other key as they are.
  toggle_key_other :
      (f : Filters S) (key other : FilterKey) (value : Text)
      → key ≢ other
      → values_of_key (toggle_key key value f) other ≡ values_of_key f other
  unfolding values_of_key toggle_key toggle_array_filter
  toggle_key_other f (array_key a) (array_key b) value h =
      (toggle_array_filter_lem f a b value value (λ e. h (ap array_key e))).1
  toggle_key_other f (array_key a) deleted_key value h =
      ap (labels_of deleted_labels)
        (set_array-SameScalars f a (toggle_value (get_array f a) value)).5
  toggle_key_other f (array_key a) processed_key value h =
      ap (labels_of processed_labels)
        (set_array-SameScalars f a (toggle_value (get_array f a) value)).6
  toggle_key_other f deleted_key (array_key a) value h = get_array-flags f a _ f.processed
  toggle_key_other f deleted_key deleted_key value h = absurd (h refl)
  toggle_key_other f deleted_key processed_key value h = refl
  toggle_key_other f processed_key (array_key a) value h = get_array-flags f a f.deleted _
  toggle_key_other f processed_key deleted_key value h = refl
  toggle_key_other f processed_key processed_key value h = absurd (h refl)

  -- The toggle of a value of a chart, for a facet that the URL has and a value that its chart
  -- offers, makes the value active exactly when it was not, and leaves the active values of every
  -- facet with another key as they are.
  pub get_active_values-handle_toggle :
      (f : Filters S) (facet other value : Text) (key other_key : FilterKey)
      → lookup facet_to_url_param facet ≡ some key
      → lookup facet_to_url_param other ≡ some other_key
      → key ≢ other_key
      → offers key value ≡ true
      → (includes (get_active_values (handle_toggle facet value f) facet) value
          ≡ not (includes (get_active_values f facet) value))
        × (get_active_values (handle_toggle facet value f) other ≡ get_active_values f other)
  unfolding get_active_values handle_toggle
  get_active_values-handle_toggle f facet other value key other_key here there differ h =
      let toggled : handle_toggle facet value f ≡ toggle_key key value f =
        ap (λ k. toggle_of k value f) here in
      let shown : (g : Filters S) → get_active_values g facet ≡ values_of_key g key =
        λ g. ap (values_of g) here in
      let shown_other : (g : Filters S) → get_active_values g other ≡ values_of_key g other_key =
        λ g. ap (values_of g) there in
      rw
        (
          toggled,
          shown (toggle_key key value f),
          shown f,
          shown_other (toggle_key key value f),
          shown_other f,
        )
        (toggle_key_self f key value h, toggle_key_other f key other_key value differ)
