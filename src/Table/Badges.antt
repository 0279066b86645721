-- ===== src/Table/Badges.antt =====
-- The badges of a row in client/src/features/records/table/columns.tsx: a click on one leads to a
-- view that the carousel has.
use marc_comparator.Base.{
  ℕ, ◌+◌, ◌≡◌, refl, ap, ◌∙◌, true, false, ◌&&◌, Option, List, [], ◌∷◌, ◌++◌, any, drop, length,
  if◌then◌else◌, ◌==◌, eq_iff, eq_refl, Bool-cases, inl, inr, arith,
}
use marc_comparator.Base.Text.{Text, lit, text_eq, text_eqb, starts_with, truthy}
use marc_comparator.Filters.{Filters}
use marc_comparator.Summaries.{Group}
use marc_comparator.Records.{
  AuthorityLinkSummary, ComparisonSummary, RecordSummary, ComparisonDetail, ValidationDetail,
}
use marc_comparator.Carousel.Key.{
  authority, comparison, validation, parse_view_key, build_authority_key, build_comparison_key,
  NoColon, parse_view_key-build_comparison_key,
}
use marc_comparator.Carousel.View.{
  any_loaded, is_comparison, link_key, option_available, is_view_available,
}
use marc_comparator.Carousel.Navigation.{selected_view, set_selected_view}
use marc_comparator.Table.{on_navigate}

-- The three kinds of badges that can be clicked.
pub data Badge (S : Type 0) : Type 0 where
  link_badge : AuthorityLinkSummary → Badge S
  comparison_badge : ComparisonSummary S → Badge S
  group_badge : Group → Badge S

-- `systemNumber` of the cell with the links.
unfoldable pub system_number : AuthorityLinkSummary → Text
system_number al =
    if starts_with al.authority_record_id (al.base ++ lit "-")
    then drop (length al.base + 1) al.authority_record_id
    else al.authority_record_id

unfoldable pub view_key : {S : Type 0} → Badge S → Text
unfolding system_number
view_key (link_badge al) = lit "auth:" ++ (al.base ++ (lit ":" ++ system_number al))
view_key (comparison_badge c) = lit "comp:" ++ (c.comparator ++ (lit ":" ++ c.other_record_id))
view_key (group_badge g) = lit "val:" ++ g.validator

-- What the badge stands for is among what the carousel has loaded for the record.
abbrev pub IsLoaded :
    {S : Type 0}
    → RecordSummary S
    → Option (List (ComparisonDetail S))
    → Option (List ValidationDetail)
    → Badge S
    → Type 0
IsLoaded r comparisons validations (link_badge al) =
    any (λ l. l.base == al.base && l.authority_record_id == al.authority_record_id)
      r.authority_links
    ≡ true
IsLoaded r comparisons validations (comparison_badge c) =
    NoColon c.comparator
    × (any_loaded (is_comparison c.comparator c.other_record_id) comparisons ≡ true)
IsLoaded r comparisons validations (group_badge g) =
    any_loaded (λ v. v.validator == g.validator) validations ≡ true

-- The table and the carousel write the same key for a link.
view_key-link :
    (S : Type 0) (al : AuthorityLinkSummary) → view_key {S = S} (link_badge al) ≡ link_key al
unfolding view_key system_number build_authority_key
view_key-link S al = refl

any-link_key :
    (al : AuthorityLinkSummary) (links : List AuthorityLinkSummary)
    → any (λ l. l.base == al.base && l.authority_record_id == al.authority_record_id) links ≡ true
    → any (λ l. link_key l == link_key al) links ≡ true
unfolding any
any-link_key al [] e = e
any-link_key al (l ∷ links) e =
    elim (Bool-cases (l.base == al.base && l.authority_record_id == al.authority_record_id)) [
      | inl same ↦
          let base : l.base ≡ al.base = (eq_iff l.base al.base).0 (ground (arith, same)) in
          let id : l.authority_record_id ≡ al.authority_record_id =
            (eq_iff l.authority_record_id al.authority_record_id).0 (ground (arith, same)) in
          rw (base, id) (ground (arith, eq_refl (link_key al)))
      | inr other ↦ ground (arith, e, other, any-link_key al links)
    ]

parse_view_key-link :
    (al : AuthorityLinkSummary)
    → (base : Text) × (number : Text) × (parse_view_key (link_key al) ≡ authority base number)
unfolding parse_view_key build_authority_key starts_with
parse_view_key-link al = (_, _, refl)

parse_view_key-validation :
    {S : Type 0} (b : Badge S) (g : Group)
    → b ≡ group_badge g
    → parse_view_key (view_key b) ≡ validation g.validator
unfolding parse_view_key starts_with view_key
parse_view_key-validation b g e = ap (λ x. parse_view_key (view_key x)) e

parse_view_key-comparison :
    {S : Type 0} (c : ComparisonSummary S)
    → NoColon c.comparator
    → parse_view_key (view_key (comparison_badge c)) ≡ comparison c.comparator c.other_record_id
unfolding view_key build_comparison_key
parse_view_key-comparison c h = parse_view_key-build_comparison_key c.comparator c.other_record_id h

not_marc : {S : Type 0} (b : Badge S) → (view_key b == lit "marc") ≡ false
unfolding view_key text_eqb
not_marc (link_badge al) = refl
not_marc (comparison_badge c) = refl
not_marc (group_badge g) = refl

view_key-available :
    {S : Type 0} (r : RecordSummary S) (comparisons : Option (List (ComparisonDetail S)))
    (validations : Option (List ValidationDetail)) (b : Badge S)
    → IsLoaded r comparisons validations b
    → option_available (view_key b) r comparisons validations (parse_view_key (view_key b)) ≡ true
unfolding option_available
view_key-available {S} r comparisons validations (link_badge al) h =
    let parsed = parse_view_key-link al in
    ap (λ k. option_available k r comparisons validations (parse_view_key k)) (view_key-link S al)
    ∙ ap (λ o. option_available (link_key al) r comparisons validations o) parsed.2
    ∙ any-link_key al r.authority_links h
view_key-available r comparisons validations (comparison_badge c) h =
    ap (λ o. option_available (view_key (comparison_badge c)) r comparisons validations o)
      (parse_view_key-comparison c h.0)
    ∙ h.1
view_key-available {S} r comparisons validations (group_badge g) h =
    let b : Badge S = group_badge g in
    ap (λ o. option_available (view_key b) r comparisons validations o)
      (parse_view_key-validation b g refl)
    ∙ h

truthy-view_key : {S : Type 0} (b : Badge S) → truthy (view_key b) ≡ true
unfolding view_key
truthy-view_key (link_badge al) = refl
truthy-view_key (comparison_badge c) = refl
truthy-view_key (group_badge g) = refl

selected_view-key : (k : Text) → truthy k ≡ true → (if truthy k then k else lit "marc") ≡ k
selected_view-key k e = rw e refl

pub set_selected_view-key :
    {S : Type 0} (b : Badge S) (f : Filters S)
    → selected_view (set_selected_view (view_key b) f) ≡ view_key b
unfolding selected_view set_selected_view
set_selected_view-key b f = rw (not_marc b) (selected_view-key (view_key b) (truthy-view_key b))

-- Where the carousel has loaded what a badge stands for, and no comparator has a colon in its name: a
-- click on the badge selects the badge's view in the carousel, and the carousel has this view of the
-- record, so that it is not replaced by another.
pub on_navigate-available :
    {S : Type 0} (row : ℕ) (b : Badge S) (f : Filters S) (r : RecordSummary S)
    (comparisons : Option (List (ComparisonDetail S)))
    (validations : Option (List ValidationDetail))
    → IsLoaded r comparisons validations b
    → (selected_view (on_navigate row (view_key b) f) ≡ view_key b)
      × (is_view_available
            (selected_view (on_navigate row (view_key b) f))
            r
            comparisons
            validations
          ≡ true)
unfolding selected_view on_navigate is_view_available
on_navigate-available row b f r comparisons validations h =
    let stays : selected_view (on_navigate row (view_key b) f) ≡ view_key b =
      selected_view-key (view_key b) (truthy-view_key b) in
    let here : is_view_available (view_key b) r comparisons validations ≡ true =
      rw (not_marc b) (view_key-available r comparisons validations b h) in
    (stays, ap (λ k. is_view_available k r comparisons validations) stays ∙ here)
