-- ===== src/Facets/Bar.antt =====
-- The bar of active filters, against the request that the filters build.
use mathlib.Core.Bool.{false≢true}
use mathlib.Core.Path.{subst}
use marc_comparator.Base.{
  ◌≡◌, refl, sym, ◌∙◌, true, false, ◌&&◌, none, some, List, [], ◌∷◌, ◌++◌, map, filter,
  if◌then◌else◌, ◌==◌, arith, Bool-cases, inl, inr, is_empty, All, eq_iff,
}
use marc_comparator.Base.Text.{Text, lit, text_eq, text_eqb, truthy}
use marc_comparator.Filters.{Scores, Filters, get_array, build_record_filter, flag, given}
use marc_comparator.Filters.Requests.{only_text}
use marc_comparator.Facets.{
  FilterKey, facet_to_url_param, labels_of, values_of_key, active_filters_of, has_score_filter,
  has_any_filter,
}

is_empty-values :
    (field : Text) (vs : List Text) (rest : List (Text × Text))
    → is_empty (map (λ v. (field, v)) vs ++ rest) ≡ (is_empty vs && is_empty rest)
is_empty-values field [] rest = refl
is_empty-values field (v ∷ vs) rest = refl

none_active :
    {S : Type 0} (f : Filters S) (entries : List (Text × FilterKey))
    → is_empty (active_filters_of f entries) ≡ true
    → All (λ e. is_empty (values_of_key f e.1) ≡ true) entries
unfolding active_filters_of
none_active f [] h = tt
none_active f ((field, key) ∷ rest) h =
    let both = sym (is_empty-values field (values_of_key f key) (active_filters_of f rest)) ∙ h in
    (ground (arith, both), none_active f rest (ground (arith, both)))

no_label-flag :
    (t u : Text) (v : Text)
    → is_empty (labels_of ((t, lit "true") ∷ (u, lit "false") ∷ []) v) ≡ true
    → flag v ≡ none
unfolding labels_of flag filter text_eqb
no_label-flag t u v h =
    let found : Text → Type 0 =
      λ w. is_empty (labels_of ((t, lit "true") ∷ (u, lit "false") ∷ []) w) ≡ true in
    elim (Bool-cases (v == lit "true")) [
      | inl e ↦ absurd (false≢true (subst found ((eq_iff v (lit "true")).0 e) h))
      | inr e ↦ elim (Bool-cases (v == lit "false")) [
        | inl k ↦ absurd (false≢true (subst found ((eq_iff v (lit "false")).0 k) h))
        | inr k ↦ rw (e, k) refl
      ]
    ]

given-empty : (xs : List Text) → is_empty xs ≡ true → given xs ≡ none
given-empty xs h = rw h refl

module _ {S : Type 0} (scores : Scores S) where
  -- When the bar of active filters is not shown, the request asks for nothing but the text of the
  -- search: no filter is in force that the bar does not show.
  pub has_any_filter-request :
      (f : Filters S)
      → has_any_filter scores f ≡ false
      → build_record_filter scores f
        ≡ only_text (if truthy f.search_text then some f.search_text else none)
  unfolding has_any_filter has_score_filter build_record_filter values_of_key get_array
  has_any_filter-request f h =
      let free = none_active f facet_to_url_param (ground (arith, h)) in
      let score_min : scores.score_lt scores.score_zero f.score_min ≡ false = ground (arith, h) in
      let score_max : scores.score_lt f.score_max scores.score_one ≡ false = ground (arith, h) in
      let id : truthy f.record_id ≡ false = ground (arith, h) in
      rw
        (
          free.0,
          free.1.0,
          free.1.1.0,
          no_label-flag (lit "Deleted") (lit "Active") f.deleted free.1.1.1.0,
          no_label-flag (lit "Processed") (lit "Unprocessed") f.processed free.1.1.1.1.0,
          free.1.1.1.1.1.0,
          free.1.1.1.1.1.1.0,
          free.1.1.1.1.1.1.1.0,
          free.1.1.1.1.1.1.1.1.0,
          free.1.1.1.1.1.1.1.1.1.0,
          free.1.1.1.1.1.1.1.1.1.1.0,
          free.1.1.1.1.1.1.1.1.1.1.1.0,
          free.1.1.1.1.1.1.1.1.1.1.1.1.0,
          free.1.1.1.1.1.1.1.1.1.1.1.1.1.0,
          free.1.1.1.1.1.1.1.1.1.1.1.1.1.1.0,
          score_min,
          score_max,
          id,
        )
        refl
