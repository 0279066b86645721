-- ===== src/Carousel/Header.antt =====
-- client/src/features/records/carousel/record-header.tsx: the badges of the record that is shown. The
-- cells of a row in table/columns.tsx have the same badges.
use marc_comparator.Base.{
  ℕ, ◌≡◌, ap, sym, ◌∙◌, true, Bool, ◌&&◌, Option, List, ◌++◌, map, All, All-append, All-map,
  All-weaken, any_self, ◌==◌, eq_refl, arith,
}
use marc_comparator.Base.Text.{text_eq}
use marc_comparator.Filters.{Filters}
use marc_comparator.Summaries.{group_validations}
use marc_comparator.Summaries.Members.{All-group_validations}
use marc_comparator.Records.{
  AuthorityLinkSummary, RecordSummary, ComparisonDetail, ValidationDetail,
}
use marc_comparator.Carousel.Key.{NoColon}
use marc_comparator.Carousel.View.{any_loaded, is_comparison, is_view_available}
use marc_comparator.Carousel.Navigation.{selected_view, set_selected_view}
use marc_comparator.Table.{on_navigate}
use marc_comparator.Table.Badges.{
  Badge, link_badge, comparison_badge, group_badge, view_key, IsLoaded, on_navigate-available,
  set_selected_view-key,
}

unfoldable pub record_badges : {S : Type 0} → RecordSummary S → List (Badge S)
unfolding group_validations
record_badges r =
    map link_badge r.authority_links
    ++ (map comparison_badge r.comparisons ++ map group_badge (group_validations r.validations))

-- The setter that `RecordDetail` hands to the header as `onSelectView`, at a click on a badge.
unfoldable pub on_select_view : {S : Type 0} → Badge S → Filters S → Filters S
unfolding view_key set_selected_view
on_select_view b f = set_selected_view (view_key b) f

-- The details that the carousel has loaded are those of what the record sums up.
abbrev pub IsDetailed :
    {S : Type 0}
    → RecordSummary S
    → Option (List (ComparisonDetail S))
    → Option (List ValidationDetail)
    → Type 0
IsDetailed r comparisons validations =
    All
      (λ c.
        NoColon c.comparator
        × (any_loaded (is_comparison c.comparator c.other_record_id) comparisons ≡ true))
      r.comparisons
    × All (λ v. any_loaded (λ d. d.validator == v.validator) validations ≡ true) r.validations

abbrev same_link : AuthorityLinkSummary → AuthorityLinkSummary → Bool
same_link al l = l.base == al.base && l.authority_record_id == al.authority_record_id

record_badges-IsLoaded :
    {S : Type 0} (r : RecordSummary S) (comparisons : Option (List (ComparisonDetail S)))
    (validations : Option (List ValidationDetail))
    → IsDetailed r comparisons validations
    → All (IsLoaded r comparisons validations) (record_badges r)
unfolding record_badges
record_badges-IsLoaded {S} r comparisons validations h =
    let P : Badge S → Type 0 = IsLoaded r comparisons validations in
    let links : All P (map link_badge r.authority_links) = All-map P link_badge r.authority_links (
      any_self same_link r.authority_links
        (λ al. ground (arith, eq_refl al.base, eq_refl al.authority_record_id))) in
    let compared : All P (map comparison_badge r.comparisons) =
      All-map P comparison_badge r.comparisons h.0 in
    let groups : All P (map group_badge (group_validations r.validations)) =
      All-map P group_badge (group_validations r.validations) (
        All-group_validations (λ name. any_loaded (λ d. d.validator == name) validations ≡ true)
          r.validations h.1) in
    All-append P _ _ links (All-append P _ _ compared groups)

-- Where the carousel has loaded the comparisons and validations that the record sums up, and no
-- comparator has a colon in its name: for each badge of the record, a click on it in the table
-- selects the badge's view, a click on it in the carousel selects the same, and the carousel has this
-- view of the record, so that it is not replaced by another.
pub record_badges-available :
    {S : Type 0} (row : ℕ) (f : Filters S) (r : RecordSummary S)
    (comparisons : Option (List (ComparisonDetail S)))
    (validations : Option (List ValidationDetail))
    → IsDetailed r comparisons validations
    → All
        (λ b.
          (selected_view (on_navigate row (view_key b) f) ≡ view_key b)
          × ((selected_view (on_select_view b f) ≡ view_key b)
              × (is_view_available (view_key b) r comparisons validations ≡ true)))
        (record_badges r)
unfolding on_select_view
record_badges-available row f r comparisons validations h =
    All-weaken (record_badges r)
      (λ b loaded.
        let there = on_navigate-available row b f r comparisons validations loaded in
        let here : is_view_available (view_key b) r comparisons validations ≡ true =
          ap (λ k. is_view_available k r comparisons validations) (sym there.0) ∙ there.1 in
        (there.0, (set_selected_view-key b f, here)))
      (record_badges-IsLoaded r comparisons validations h)
