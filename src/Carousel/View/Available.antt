-- ===== src/Carousel/View/Available.antt =====
-- The selected view stays one that the record has.
use mathlib.Core.Path.{subst}
use marc_comparator.Base.{
  ◌≡◌, refl, true, false, Option, none, some, List, any, find?, ◌==◌, arith, eq_iff, eq_refl, ◌≢◌,
  any_of_find?, find?_test, Option-cases, inl, inr, Bool-cases, sym, ◌⊎◌, eq-false_of_ne,
}
use marc_comparator.Base.Text.{Text, lit, text_eq, text_eqb, starts_with}
use marc_comparator.Records.{
  AuthorityLinkSummary, RecordSummary, ComparisonDetail, ValidationDetail,
}
use marc_comparator.Carousel.Key.{
  ViewOption, marc, authority, comparison, validation, parse_view_key, build_authority_key,
  build_comparison_key, build_validation_key, NoColon, parse_view_key-NoColon,
  parse_view_key-build_comparison_key,
}
use marc_comparator.Carousel.View.{
  any_loaded, find_loaded, link_key, is_comparison, is_view_available, matching_view, Selection,
  on_record_change,
}

comparison_key-ne-marc : (c o : Text) → (build_comparison_key c o == lit "marc") ≡ false
unfolding build_comparison_key text_eqb
comparison_key-ne-marc c o = refl

-- A comparison that `find` returned has the comparator, and stands among the comparisons.
find_loaded-comparison :
    {S : Type 0} (comparisons : Option (List (ComparisonDetail S))) (comparator : Text)
    (c : ComparisonDetail S)
    → find_loaded (λ x. x.comparator == comparator) comparisons ≡ some c
    → (c.comparator ≡ comparator)
      × (any_loaded (is_comparison c.comparator c.other_record_id) comparisons ≡ true)
find_loaded-comparison none comparator c e = absurd (ground arith)
find_loaded-comparison (some cs) comparator c e = (
  (eq_iff c.comparator comparator).0 (find?_test (λ x. x.comparator == comparator) cs c e),
  any_of_find? (λ x. x.comparator == comparator) (is_comparison c.comparator c.other_record_id) cs c
      e (ground (arith, eq_refl c.comparator, eq_refl c.other_record_id)),
)

module _ {S : Type 0} (r : RecordSummary S) (comparisons : Option (List (ComparisonDetail S)))
    (validations : Option (List ValidationDetail)) where
  abbrev IsAvailable : Text → Type 0
  IsAvailable key = is_view_available key r comparisons validations ≡ true

  IsAvailable-marc : IsAvailable (lit "marc")
  unfolding is_view_available text_eqb
  IsAvailable-marc = refl

  IsAvailable-link_key :
      (al : AuthorityLinkSummary)
      → any (λ x. link_key x == link_key al) r.authority_links ≡ true
      → IsAvailable (link_key al)
  unfolding is_view_available parse_view_key build_authority_key starts_with text_eqb
  IsAvailable-link_key al h = h

  IsAvailable-comparison_key :
      (c o : Text)
      → NoColon c
      → any_loaded (is_comparison c o) comparisons ≡ true
      → IsAvailable (build_comparison_key c o)
  unfolding is_view_available
  IsAvailable-comparison_key c o free h =
      rw (comparison_key-ne-marc c o, parse_view_key-build_comparison_key c o free) h

  IsAvailable-found_comparison :
      (comparator : Text) (c : ComparisonDetail S)
      → NoColon comparator
      → find_loaded (λ x. x.comparator == comparator) comparisons ≡ some c
      → IsAvailable (build_comparison_key c.comparator c.other_record_id)
  IsAvailable-found_comparison comparator c free found =
      let (same, listed) = find_loaded-comparison comparisons comparator c found in
      IsAvailable-comparison_key c.comparator c.other_record_id (subst NoColon (sym same) free)
        listed

  IsAvailable-validation_key :
      (name : Text)
      → any_loaded (λ v. v.validator == name) validations ≡ true
      → IsAvailable (build_validation_key name)
  unfolding is_view_available parse_view_key build_validation_key starts_with text_eqb
  IsAvailable-validation_key name h = h

  matching_view-IsAvailable :
      (key : Text) (view : ViewOption)
      → parse_view_key key ≡ view
      → IsAvailable (matching_view r comparisons view)
  unfolding matching_view
  matching_view-IsAvailable key (authority base n) e =
      elim (Option-cases (find? (λ al. al.base == base) r.authority_links)) [
        | inl nothing ↦ rw (nothing, matching_view) IsAvailable-marc
        | inr (al, found) ↦
            rw (found, matching_view)
              (IsAvailable-link_key al (
                any_of_find? (λ x. x.base == base) (λ x. link_key x == link_key al)
                  r.authority_links al found (eq_refl (link_key al))))
      ]
  matching_view-IsAvailable key (comparison comparator o) e =
      elim (Option-cases (find_loaded (λ c. c.comparator == comparator) comparisons)) [
        | inl nothing ↦ rw (nothing, matching_view) IsAvailable-marc
        | inr (c, found) ↦
            rw (found, matching_view)
              (IsAvailable-found_comparison comparator c (parse_view_key-NoColon key comparator o e)
                found)
      ]
  matching_view-IsAvailable key marc e = IsAvailable-marc
  matching_view-IsAvailable key (validation name) e = IsAvailable-marc

  -- When the shown record has changed and its comparisons and validations are fetched, the effect
  -- remembers the record and leaves a view selected that the record has. A selected view that the
  -- record has stays selected.
  pub on_record_change-IsAvailable :
      (s : Selection)
      → r.id ≢ s.prev_record_id
      → ((on_record_change r comparisons validations false s).prev_record_id ≡ r.id)
        × (is_view_available
              (on_record_change r comparisons validations false s).selected_view
              r
              comparisons
              validations
            ≡ true)
        × ((is_view_available s.selected_view r comparisons validations ≡ false)
            ⊎ ((on_record_change r comparisons validations false s).selected_view
                ≡ s.selected_view))
  unfolding on_record_change
  on_record_change-IsAvailable s h = elim (Bool-cases (s.selected_view == lit "marc")) [
    | inl start ↦
        rw (eq-false_of_ne r.id s.prev_record_id h, start)
          (refl, rw ((eq_iff s.selected_view (lit "marc")).0 start) IsAvailable-marc, inr refl)
    | inr view ↦ elim (Bool-cases (is_view_available s.selected_view r comparisons validations)) [
      | inl kept ↦ rw (eq-false_of_ne r.id s.prev_record_id h, view, kept) (refl, kept, inr refl)
      | inr gone ↦
          rw (eq-false_of_ne r.id s.prev_record_id h, view, gone)
            (
              refl,
              matching_view-IsAvailable s.selected_view (parse_view_key s.selected_view) refl,
              inl refl,
            )
    ]
  ]
