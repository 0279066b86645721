-- ===== src/Maintenance/Tests.antt =====
-- The card that deletes tasks, on concrete input.
use marc_comparator.Base.{
  ℕ, ◌+◌, ◌*◌, ◌-◌, ◌≡◌, refl, true, ◌&&◌, Option, none, some, or_else, List, [], ◌∷◌, leb,
  if◌then◌else◌,
}
use marc_comparator.Base.Text.{Text, lit}
use marc_comparator.Maintenance.{
  Card, CardEvent, age_typed, run_clicked, settled, new_card, card_run,
}

-- The number at the start of a text, for digits alone.
abbrev digits : Option ℕ → Text → Option ℕ
digits found [] = found
digits found (c ∷ cs) =
    let more = digits (some (or_else found 0 * 10 + (c - b'0'))) cs in
    if leb b'0' c && leb c b'9' then more else found

abbrev parse_digits : Text → Option ℕ
parse_digits = digits none

abbrev delete_card : Card
delete_card = record { endpoint = lit "/maintenance/delete-tasks"; show_max_age = true }

-- An input of numbers takes the text 1e3 for a thousand days; one day is sent.
abbrev typed_thousand : List CardEvent
typed_thousand = age_typed (lit "1e3") ∷ run_clicked ∷ run_clicked ∷ settled ∷ []

one_day :
    card_run parse_digits delete_card typed_thousand new_card
    ≡ record { endpoint = lit "/maintenance/delete-tasks"; body = some (some 1) } ∷ []
unfolding card_run
one_day = refl
