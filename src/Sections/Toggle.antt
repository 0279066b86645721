-- ===== src/Sections/Toggle.antt =====
-- What the toggles of a chart and of a section do to the visible charts.
use marc_comparator.Base.{
  ◌≡◌, refl, sym, Bool, true, false, not, ◌&&◌, ◌||◌, List, [], ◌∷◌, if◌then◌else◌, All, arith,
  Bool-cases, inl, inr, ◌==◌, eq_iff,
}
use marc_comparator.Base.Text.{Text, text_eq}
use marc_comparator.Base.Sets.{includes, add, delete, includes-add, includes-delete}
use marc_comparator.Sections.{
  Section, context, records, comparison, validation, section_groups, hidden_set, is_visible,
  toggle_chart, is_section_visible, hide_or_show, toggle_section,
}
use marc_comparator.Sections.Commas.{
  IsName, hidden_set-names, includes-hidden_set-join, All-add, All-delete,
}

shown :
    (now : List Text) (chart other : Text)
    → includes now chart ≡ true
    → not (includes now other && not (chart == other))
      ≡ (if chart == other then not (not (includes now other)) else not (includes now other))
shown now chart other e = elim (Bool-cases (chart == other)) [
  | inl same ↦ rw (same, sym ((eq_iff chart other).0 same), e) refl
  | inr differ ↦ rw differ (ground arith)
]

hidden_too :
    (now : List Text) (chart other : Text)
    → includes now chart ≡ false
    → not (includes now other || chart == other)
      ≡ (if chart == other then not (not (includes now other)) else not (includes now other))
hidden_too now chart other e = elim (Bool-cases (chart == other)) [
  | inl same ↦ rw (same, sym ((eq_iff chart other).0 same), e) refl
  | inr differ ↦ rw differ (ground arith)
]

-- The toggle of a chart shows it if it was hidden and hides it if it was visible, and leaves every
-- other chart as it is, for a chart whose name is not empty and has no comma, whatever the text of
-- the URL was before.
pub is_visible-toggle_chart :
    (hidden chart other : Text)
    → IsName chart
    → is_visible (toggle_chart hidden chart) other
      ≡ (if chart == other then not (is_visible hidden other) else is_visible hidden other)
unfolding is_visible toggle_chart
is_visible-toggle_chart hidden chart other name =
    let now = hidden_set hidden in
    elim (Bool-cases (includes now chart)) [
      | inl e ↦
          rw
            (
              e,
              includes-hidden_set-join (delete now chart) other
                  (All-delete IsName now chart (hidden_set-names hidden)),
              includes-delete now chart other,
            )
            (shown now chart other e)
      | inr e ↦
          rw
            (
              e,
              includes-hidden_set-join (add now chart) other
                  (All-add IsName now chart (hidden_set-names hidden) name),
              includes-add now chart other,
            )
            (hidden_too now chart other e)
    ]

All-hide_or_show :
    (hide : Bool) (next ids : List Text)
    → All IsName next
    → All IsName ids
    → All IsName (hide_or_show hide next ids)
unfolding hide_or_show
All-hide_or_show hide next [] h k = h
All-hide_or_show true next (id ∷ ids) h k =
    All-hide_or_show true (add next id) ids (All-add IsName next id h k.0) k.1
All-hide_or_show false next (id ∷ ids) h k =
    All-hide_or_show false (delete next id) ids (All-delete IsName next id h) k.1

includes-hide_or_show :
    (hide : Bool) (next ids : List Text) (a : Text)
    → includes (hide_or_show hide next ids) a ≡ (
        if hide
        then (includes next a || includes ids a)
        else (includes next a && not (includes ids a)))
unfolding hide_or_show includes
includes-hide_or_show true next [] a = ground arith
includes-hide_or_show false next [] a = ground arith
includes-hide_or_show true next (id ∷ ids) a =
    rw (includes-hide_or_show true (add next id) ids a, includes-add next id a) (ground arith)
includes-hide_or_show false next (id ∷ ids) a =
    rw (includes-hide_or_show false (delete next id) ids a, includes-delete next id a)
      (ground arith)

section_groups-names : (section : Section) → All IsName (section_groups section)
unfolding section_groups
section_groups-names context = ground arith
section_groups-names records = ground arith
section_groups-names comparison = ground arith
section_groups-names validation = ground arith

-- The toggle of a section hides all of its charts if one of them was visible, and shows all of them
-- otherwise; a chart of another section stays as it is.
pub is_visible-toggle_section :
    (hidden chart : Text) (section : Section)
    → is_visible (toggle_section hidden section) chart ≡ (
        if includes (section_groups section) chart
        then not (is_section_visible hidden section)
        else is_visible hidden chart)
unfolding is_visible toggle_section
is_visible-toggle_section hidden chart section =
    let ids = section_groups section in
    let hide = is_section_visible hidden section in
    let names =
      All-hide_or_show hide (hidden_set hidden) ids (hidden_set-names hidden)
        (section_groups-names section) in
    rw
      (
        includes-hidden_set-join (hide_or_show hide (hidden_set hidden) ids) chart names,
        includes-hide_or_show hide (hidden_set hidden) ids chart,
      )
      (ground arith)
