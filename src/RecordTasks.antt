-- ===== src/RecordTasks.antt =====
-- The task dialogs of client/src/features/records/record-task-actions.tsx: the state of
-- `AdvancedTaskActions`, its handlers, and the requests that they send. An event of the user is
-- possible only where the page shows an enabled control for it.
pub mod Offered
pub mod Busy
pub mod View
pub mod Process
mod Tests
use marc_comparator.Base.{
  ◌≡◌, Bool, true, false, not, ◌&&◌, ◌||◌, Option, none, some, List, [], ◌∷◌, ◌++◌, filter, any,
  map, is_empty, if◌then◌else◌, ◌==◌, present,
}
use marc_comparator.Base.Text.{Text, text_eq, truthy}
use marc_comparator.Base.Sets.{includes, add, delete, distinct}

-- An entry of `enabled_authority_linkers`.
pub record Linker : Type 0 where
  pub name : Text
  pub target_bases : List Text

-- The part of `SystemInfo` that the page reads.
pub record SystemInfo : Type 0 where
  pub authority_bases : List Text
  pub enabled_authority_linkers : List Linker
  pub enabled_validators : List Text

pub data DialogAction : Type 0 where
  link_authorities compare validate : DialogAction

-- The state of the component, and whether each of its mutations is pending.
pub record State : Type 0 where
  pub pending_dialog : Option DialogAction
  pub selected_base : Option Text
  pub selected_linkers : List Text
  pub selected_comparison_bases : List Text
  pub selected_validators : List Text
  pub linking : Bool
  pub comparing : Bool
  pub validating : Bool

abbrev pub initial : State
initial = record {
  pending_dialog = none;
  selected_base = none;
  selected_linkers = [];
  selected_comparison_bases = [];
  selected_validators = [];
  linking = false;
  comparing = false;
  validating = false;
}

-- The bodies of the requests, without the filters, which are the same in all of them.
pub data Request : Type 0 where
  post_link : (linkers : List Text) (target_base : Text) → Request
  post_compare : (target_base : Text) → Request
  post_validate : (validators : List Text) → Request

unfoldable pub is_busy : State → Bool
is_busy s = s.linking || s.comparing || s.validating

-- `new Set([x])` where the list has exactly the element x, else the empty set.
abbrev pub only : List Text → List Text
only (x ∷ []) = x ∷ []
only _ = []

abbrev pub only_base : List Text → Option Text
only_base (x ∷ []) = some x
only_base _ = none

abbrev pub only_linker : List Linker → List Text
only_linker (l ∷ []) = l.name ∷ []
only_linker _ = []

unfoldable pub bases_of : List Linker → List Text
bases_of [] = []
bases_of (l ∷ ls) = l.target_bases ++ bases_of ls

unfoldable pub available_bases : SystemInfo → List Text
unfolding bases_of
available_bases info = distinct (bases_of info.enabled_authority_linkers)

unfoldable pub compatible : SystemInfo → Text → List Linker
compatible info base = filter (λ l. includes l.target_bases base) info.enabled_authority_linkers

-- The linkers that are preselected for the default base; the empty text counts as no base.
abbrev pub preselected : SystemInfo → Option Text → List Text
preselected info none = []
preselected info (some base) = if truthy base then only_linker (compatible info base) else []

unfoldable pub open_compare : SystemInfo → State → State
open_compare info s = record s {
  selected_comparison_bases = only info.authority_bases;
  pending_dialog = some compare;
}

unfoldable pub open_link_authorities : SystemInfo → State → State
unfolding available_bases compatible
open_link_authorities info s = record s {
  selected_base = only_base (available_bases info);
  selected_linkers = preselected info (only_base (available_bases info));
  pending_dialog = some link_authorities;
}

unfoldable pub open_validate : SystemInfo → State → State
open_validate info s = record s {
  selected_validators = only info.enabled_validators;
  pending_dialog = some validate;
}

abbrev pub base_text : Option Text → Text
base_text none = []
base_text (some base) = base

unfoldable pub confirm_compare : State → State × List Request
confirm_compare s = if is_empty s.selected_comparison_bases then (s, []) else (
  record s { comparing = true; pending_dialog = none },
  map post_compare s.selected_comparison_bases,
)

unfoldable pub confirm_link_authorities : State → State × List Request
confirm_link_authorities s =
    if not (truthy (base_text s.selected_base)) || is_empty s.selected_linkers then (s, []) else (
      record s { linking = true; pending_dialog = none },
      post_link s.selected_linkers (base_text s.selected_base) ∷ [],
    )

unfoldable pub confirm_validate : State → State × List Request
confirm_validate s = if is_empty s.selected_validators then (s, []) else (
  record s { validating = true; pending_dialog = none },
  post_validate s.selected_validators ∷ [],
)

-- The three updates of a checkbox.
abbrev pub checked_set : List Text → Text → Bool → List Text
checked_set prev value true = add prev value
checked_set prev value false = delete prev value

unfoldable pub choose_base : SystemInfo → Text → State → State
unfolding compatible
choose_base info v s = record s {
  selected_base = some v;
  selected_linkers = only_linker (compatible info v);
}

-- The checkbox of a linker with this name is shown and enabled.
unfoldable pub is_linker_enabled : SystemInfo → Option Text → Text → Bool
is_linker_enabled info base id =
    any (λ l. l.name == id && includes l.target_bases (base_text base))
      info.enabled_authority_linkers

abbrev pub is_same : DialogAction → DialogAction → Bool
is_same link_authorities link_authorities = true
is_same compare compare = true
is_same validate validate = true
is_same _ _ = false

abbrev pub is_pending : Option DialogAction → DialogAction → Bool
is_pending none a = false
is_pending (some d) a = is_same d a

pub data Event : Type 0 where
  menu_item : DialogAction → Event
  base_chosen : Text → Event
  linker_checked base_checked validator_checked : Text → Bool → Event
  confirmed closed : Event
  settled : DialogAction → Event

-- The items of the menu, whose button is disabled while a mutation is pending.
unfoldable pub open_dialog : SystemInfo → DialogAction → State → State
unfolding open_compare open_link_authorities open_validate
open_dialog info link_authorities s = open_link_authorities info s
open_dialog info compare s = if is_empty info.authority_bases then s else open_compare info s
open_dialog info validate s = open_validate info s

unfoldable pub settle : DialogAction → State → State
settle link_authorities s = record s { linking = false }
settle compare s = record s { comparing = false }
settle validate s = record s { validating = false }

abbrev pub confirm : Option DialogAction → State → State × List Request
unfolding confirm_link_authorities confirm_compare confirm_validate
confirm none s = (s, [])
confirm (some link_authorities) s = confirm_link_authorities s
confirm (some compare) s = confirm_compare s
confirm (some validate) s = confirm_validate s

-- The button that confirms is disabled.
unfoldable pub is_confirm_disabled : SystemInfo → State → Option DialogAction → Bool
is_confirm_disabled info s none = true
is_confirm_disabled info s (some link_authorities) =
    not (truthy (base_text s.selected_base))
    || is_empty s.selected_linkers
    || is_empty info.enabled_authority_linkers
is_confirm_disabled info s (some compare) = is_empty s.selected_comparison_bases
is_confirm_disabled info s (some validate) =
    is_empty s.selected_validators || is_empty info.enabled_validators

-- The state after an event, for events that change nothing but the state.
unfoldable pub change : SystemInfo → Event → State → State
unfolding is_busy open_dialog choose_base is_linker_enabled available_bases settle
change info (menu_item a) s = if is_busy s then s else open_dialog info a s
change info (base_chosen v) s =
    if is_pending s.pending_dialog link_authorities && includes (available_bases info) v
    then choose_base info v s
    else s
change info (linker_checked id checked) s =
    if is_pending s.pending_dialog link_authorities && is_linker_enabled info s.selected_base id
    then record s { selected_linkers = checked_set s.selected_linkers id checked }
    else s
change info (base_checked base checked) s =
    if is_pending s.pending_dialog compare && includes info.authority_bases base
    then record s {
      selected_comparison_bases = checked_set s.selected_comparison_bases base checked;
    }
    else s
change info (validator_checked v checked) s =
    if is_pending s.pending_dialog validate && includes info.enabled_validators v
    then record s { selected_validators = checked_set s.selected_validators v checked }
    else s
change info confirmed s = s
change info closed s = record s { pending_dialog = none }
change info (settled a) s = settle a s

unfoldable pub step : SystemInfo → Event → State → State × List Request
unfolding change is_confirm_disabled
step info confirmed s =
    if is_confirm_disabled info s s.pending_dialog then (s, []) else confirm s.pending_dialog s
step info ev s = (change info ev s, [])

-- The state after the events, with the requests that were sent.
unfoldable pub run : SystemInfo → List Event → State → State × List Request
unfolding step
run info [] s = (s, [])
run info (ev ∷ evs) s =
    let after = step info ev s in let rest = run info evs after.0 in (rest.0, after.1 ++ rest.1)
