-- ===== src/Sections.antt =====
-- `useSectionVisibility` of client/src/features/records/plots/use-section-visibility.ts: which charts
-- are hidden, as the text of the URL that the set of their names is written to.
pub mod Commas
pub mod Toggle
mod Tests
use marc_comparator.Base.{
  ℕ, ◌≡◌, Bool, true, false, not, ◌&&◌, ◌||◌, Option, none, some, List, [], ◌∷◌, ◌++◌, map, any,
  filter, if◌then◌else◌, nat_eqb, ◌==◌,
}
use marc_comparator.Base.Text.{Text, lit, text_eq, truthy}
use marc_comparator.Base.Sets.{includes, add, delete, distinct}

-- The code unit of `,`.
abbrev pub comma : ℕ
comma = 44

abbrev pub to_first : ℕ → List Text → List Text
to_first c [] = (c ∷ []) ∷ []
to_first c (part ∷ parts) = (c ∷ part) ∷ parts

-- `text.split(",")`.
unfoldable pub split : Text → List Text
split [] = [] ∷ []
split (c ∷ cs) = if nat_eqb c comma then [] ∷ split cs else to_first c (split cs)

-- `parts.join(",")`.
unfoldable pub join : List Text → Text
join [] = []
join (part ∷ []) = part
join (part ∷ next ∷ parts) = part ++ comma ∷ join (next ∷ parts)

pub data Section : Type 0 where
  context records comparison validation : Section

-- `SECTION_GROUPS`.
unfoldable pub section_groups : Section → List Text
section_groups context =
    lit "base"
    ∷ lit "validators"
    ∷ lit "authority_link_linkers"
    ∷ lit "authority_link_bases"
    ∷ lit "comparison_bases"
    ∷ []
section_groups records = lit "record_status" ∷ lit "type_of_record" ∷ lit "bibliographic_level" ∷ []
section_groups comparison =
    lit "match_quality" ∷ lit "overall_score" ∷ lit "field_explanations" ∷ []
section_groups validation = lit "validation_status" ∷ lit "validation_reasons" ∷ []

unfoldable pub hidden_set : Text → List Text
unfolding split
hidden_set hidden = if truthy hidden then distinct (filter truthy (split hidden)) else []

unfoldable pub is_visible : Text → Text → Bool
unfolding hidden_set
is_visible hidden chart = not (includes (hidden_set hidden) chart)

unfoldable pub toggle_chart : Text → Text → Text
unfolding hidden_set join
toggle_chart hidden chart =
    let next = hidden_set hidden in
    join (if includes next chart then delete next chart else add next chart)

unfoldable pub is_section_visible : Text → Section → Bool
unfolding is_visible
is_section_visible hidden section = any (is_visible hidden) (section_groups section)

-- The loop of `toggleSection`.
unfoldable pub hide_or_show : Bool → List Text → List Text → List Text
hide_or_show hide next [] = next
hide_or_show hide next (id ∷ ids) =
    hide_or_show hide (if hide then add next id else delete next id) ids

unfoldable pub toggle_section : Text → Section → Text
unfolding hidden_set join
toggle_section hidden section =
    join (
      hide_or_show (is_section_visible hidden section) (hidden_set hidden) (section_groups section))
