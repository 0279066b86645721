-- ===== src/Sections/Tests.antt =====
-- The toggles of the charts at concrete names.
use marc_comparator.Base.{◌≡◌, refl, not, if◌then◌else◌, ◌==◌}
use marc_comparator.Base.Text.{Text, lit, text_eq}
use marc_comparator.Sections.{is_visible, toggle_chart}
use marc_comparator.Sections.Commas.{IsName}
use marc_comparator.Sections.Toggle.{is_visible-toggle_chart}

abbrev base_chart : Text
base_chart = lit "base"

abbrev score_chart : Text
score_chart = lit "overall_score"

abbrev untidy : Text
untidy = lit ",base,,base"

base_chart-IsName : IsName base_chart
base_chart-IsName = ((refl, (refl, (refl, (refl, tt)))), refl)

is_visible-toggle_chart_example : is_visible (toggle_chart untidy base_chart) score_chart ≡ (
    if base_chart == score_chart
    then not (is_visible untidy score_chart)
    else is_visible untidy score_chart)
is_visible-toggle_chart_example =
    is_visible-toggle_chart untidy base_chart score_chart base_chart-IsName
