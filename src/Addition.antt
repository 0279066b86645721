-- ===== src/Addition.antt =====
-- The forms that add records: client/src/features/records/addition, with the hook
-- client/src/hooks/use-system-info.ts. The values of a form are a part of the state; the library for
-- forms hands valid values on, which the schemas say.
pub mod Batch
mod Tests
use marc_comparator.Base.{
  ℕ, ◌≡◌, Bool, true, false, not, ◌&&◌, ◌||◌, Option, none, some, List, [], ◌∷◌, ◌++◌, map, filter,
  is_empty, if◌then◌else◌, ◌==◌, or_else, nat_eqb,
}
use marc_comparator.Base.Text.{Text, lit, text_eq, truthy}
use marc_comparator.Base.Sets.{includes}

-- `useConfiguredBases`.
abbrev pub configured_bases : Option (List Text) → List Text
configured_bases none = []
configured_bases (some bases) = bases

-- `configuredBases[0] ?? ""`.
abbrev pub first_base : List Text → Text
first_base [] = []
first_base (base ∷ bases) = base

-- The three forms differ in their second field: a system number, many of them in a text, or a date.
pub data Kind : Type 0 where
  single batch sync : Kind

pub record Form : Type 0 where
  pub kind : Kind
  pub base : Text
  pub input : Text
  pub is_pending : Bool

abbrev pub new_form : Kind → List Text → Form
new_form kind bases = record {
  kind = kind;
  base = first_base bases;
  input = [];
  is_pending = false;
}

-- The effect: the bases are there, and none is chosen.
unfoldable pub choose_default : List Text → Form → Form
choose_default bases f =
    if not (is_empty bases) && not (truthy f.base)
    then record f { base = first_base bases; input = [] }
    else f

-- The schemas.
unfoldable pub is_valid : Form → Bool
is_valid f = elim f.kind [
  | single ↦ truthy f.base && truthy f.input
  | batch ↦ truthy f.base && truthy f.input
  | sync ↦ truthy f.base
]

pub data Request : Type 0 where
  fetch : (base system_number : Text) → Request
  fetch_batch : (base : Text) (system_numbers : List Text) → Request
  sync_records : (base : Text) (from_date : Option Text) → Request

-- The code unit that ends a line.
abbrev pub newline : ℕ
newline = 10

abbrev pub to_first_line : ℕ → List Text → List Text
to_first_line c [] = (c ∷ []) ∷ []
to_first_line c (line ∷ lines) = (c ∷ line) ∷ lines

unfoldable pub split_lines : Text → List Text
split_lines [] = [] ∷ []
split_lines (c ∷ cs) =
    if nat_eqb c newline then [] ∷ split_lines cs else to_first_line c (split_lines cs)

-- The numbers of the batch; `trim` is of the platform.
unfoldable pub system_numbers : (Text → Text) → Text → List Text
unfolding split_lines
system_numbers trim text = filter truthy (map trim (split_lines text))

unfoldable pub request_of : (Text → Text) → Form → Request
unfolding system_numbers
request_of trim f = elim f.kind [
  | single ↦ fetch f.base f.input
  | batch ↦ fetch_batch f.base (system_numbers trim f.input)
  | sync ↦ sync_records f.base (if truthy f.input then some f.input else none)
]

abbrev pub is_sync : Kind → Bool
is_sync sync = true
is_sync _ = false

unfoldable pub is_base_locked : List Text → Text → Bool
is_base_locked locks base = includes locks (lit "catalog_sync_" ++ base)

-- The button is disabled, and with it the submission by the key "Enter".
unfoldable pub is_submit_disabled : List Text → Form → Bool
unfolding is_base_locked
is_submit_disabled locks f = f.is_pending || is_sync f.kind && is_base_locked locks f.base

-- The message of an error: of a lock, which the server tells by the status 409, or of any.
pub data Notice : Type 0 where
  locked_warning : Notice
  error_message : Notice

abbrev pub is_conflict : Option ℕ → Bool
is_conflict none = false
is_conflict (some status) = nat_eqb status 409

unfoldable pub notice_of : Kind → Option ℕ → Notice
notice_of sync status = if is_conflict status then locked_warning else error_message
notice_of _ status = error_message

-- The user chooses a base or types; the form is submitted; the request ends.
pub data Event : Type 0 where
  base_chosen input_typed : Text → Event
  submitted succeeded : Event
  failed : Option ℕ → Event

unfoldable pub step : (Text → Text) → List Text → List Text → Event → Form → Form × List Request
unfolding is_submit_disabled is_valid request_of choose_default
step trim bases locks (base_chosen base) f =
    (if includes bases base then record f { base = base } else f, [])
step trim bases locks (input_typed text) f = (record f { input = text }, [])
step trim bases locks submitted f =
    if not (is_submit_disabled locks f) && is_valid f
    then (record f { is_pending = true }, request_of trim f ∷ [])
    else (f, [])
step trim bases locks succeeded f =
    (record f { base = first_base bases; input = []; is_pending = false }, [])
step trim bases locks (failed status) f = (record f { is_pending = false }, [])

-- The forms that the permissions show.
unfoldable pub shown_forms : (can_add can_sync : Option Bool) → List Kind
shown_forms can_add can_sync =
    (if or_else can_add false then single ∷ batch ∷ [] else [])
    ++ (if or_else can_sync false then sync ∷ [] else [])
