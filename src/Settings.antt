-- ===== src/Settings.antt =====
-- The page of client/src/features/settings/settings-page.tsx with its form, which is made by
-- use-settings-form.ts. The library for forms is a parameter: a form has values, and knows which of
-- its fields differ from the defaults.
pub mod Unsaved
pub mod Schemas
pub mod Parse
pub mod Forms
mod Tests
use marc_comparator.Base.{
  ℕ, ◌≡◌, nat_eqb, Bool, true, false, not, ◌&&◌, ◌||◌, Option, none, some, List, [], ◌∷◌, ◌++◌,
  if◌then◌else◌, present,
}
use marc_comparator.Base.Text.{Text, lit}

pub data SettingsScope : Type 0 where
  catalog tasks authority_linkers comparators validators process_records maintenance : SettingsScope

abbrev pub settings_scopes : List SettingsScope
settings_scopes =
    catalog ∷ tasks ∷ authority_linkers ∷ comparators ∷ validators ∷ process_records ∷ maintenance
    ∷ []

abbrev pub settings_endpoint : SettingsScope → Text
settings_endpoint catalog = lit "/settings/system/catalog"
settings_endpoint tasks = lit "/settings/system/tasks"
settings_endpoint authority_linkers = lit "/settings/record-tools/authority-linkers"
settings_endpoint comparators = lit "/settings/record-tools/comparators"
settings_endpoint validators = lit "/settings/record-tools/validators"
settings_endpoint process_records = lit "/settings/record-tools/process-records"
settings_endpoint maintenance = lit "/settings/system/maintenance"

-- The operations of the library for forms that the code uses, and what it relies on: a form that
-- is new or was reset is not dirty, a form with a dirty field is dirty, and new defaults
-- (`keepDirtyValues`) leave the dirty fields as they are. `D` are the data of a form, `V` the values
-- of a field.
pub record FormLib (F D V : Type 0) : Type 0 where
  pub make : D → F
  pub field : F → Text → V
  pub edit : Text → V → F → F
  pub reset : D → F → F
  pub refresh : D → F → F
  pub data_of : F → D
  pub is_dirty : F → Bool
  pub is_field_dirty : F → Text → Bool
  pub is_dirty-make : (d : D) → is_dirty (make d) ≡ false
  pub is_dirty-reset : (d : D) (f : F) → is_dirty (reset d f) ≡ false
  pub is_dirty-field : (f : F) (k : Text) → is_field_dirty f k ≡ true → is_dirty f ≡ true
  pub field-refresh :
      (d : D) (f : F) (k : Text) → is_field_dirty f k ≡ true → field (refresh d f) k ≡ field f k

-- The form that is shown, with the scope whose component it is in and the data it was given last.
pub record Shown (F D : Type 0) : Type 0 where
  pub of_scope : SettingsScope
  pub form : F
  pub defaults : D

-- The state of the page; no form is shown while the settings of the scope are loading.
pub record Page (F D : Type 0) : Type 0 where
  pub active_scope : SettingsScope
  pub is_page_dirty : Bool
  pub pending_scope : Option SettingsScope
  pub is_saving : Bool
  pub shown : Option (Shown F D)

abbrev pub scope_number : SettingsScope → ℕ
scope_number catalog = 0
scope_number tasks = 1
scope_number authority_linkers = 2
scope_number comparators = 3
scope_number validators = 4
scope_number process_records = 5
scope_number maintenance = 6

-- The scopes are the same string.
unfoldable pub is_same_scope : SettingsScope → SettingsScope → Bool
is_same_scope a b = nat_eqb (scope_number a) (scope_number b)

pub record Post (D : Type 0) : Type 0 where
  pub endpoint : Text
  pub body : D

-- What happens: the settings of the scope have come, first or again; the user edits a field,
-- selects a scope, answers the dialog, presses a button; the form element is submitted; saving is over.
-- Where a submission is valid, it comes with the data that the schema gives.
pub data Event (D V : Type 0) : Type 0 where
  loaded : D → Event D V
  edited : Text → V → Event D V
  scope_selected : SettingsScope → Event D V
  discard_confirmed dialog_closed discard_clicked : Event D V
  save_clicked form_submitted : Event D V
  saved : Event D V

abbrev pub post_parsed : {D : Type 0} → Text → Option D → Option (Post D)
post_parsed endpoint none = none
post_parsed endpoint (some d) = some (record { endpoint = endpoint; body = d })

module _ {F D V : Type 0} (lib : FormLib F D V) where
  -- `isDirty` of the page follows that of the form by the effect of `useSettingsForm`.
  abbrev pub with_form : Shown F D → Page F D → Page F D
  with_form shown p = record p { shown = some shown; is_page_dirty = lib.is_dirty shown.form }

  abbrev pub on_loaded : D → Page F D → Option (Shown F D) → Page F D
  on_loaded d p none =
      with_form (record { of_scope = p.active_scope; form = lib.make d; defaults = d }) p
  on_loaded d p (some s) = with_form (record s { form = lib.refresh d s.form; defaults = d }) p

  abbrev pub on_edited : Text → V → Page F D → Option (Shown F D) → Page F D
  on_edited k v p none = p
  on_edited k v p (some s) = with_form (record s { form = lib.edit k v s.form }) p

  abbrev pub on_reset : Page F D → Option (Shown F D) → Page F D
  on_reset p none = record p { is_page_dirty = false }
  on_reset p (some s) = record p {
    shown = some (record s { form = lib.reset s.defaults s.form });
    is_page_dirty = false;
  }

  -- The component of another scope has no form until its settings are there.
  unfoldable pub set_active_scope : SettingsScope → Page F D → Page F D
  unfolding is_same_scope
  set_active_scope scope p =
      if is_same_scope scope p.active_scope
      then p
      else record p { active_scope = scope; shown = none }

  unfoldable pub handle_scope_change : SettingsScope → Page F D → Page F D
  unfolding set_active_scope
  handle_scope_change scope p =
      if p.is_page_dirty then record p { pending_scope = some scope } else set_active_scope scope p

  unfoldable pub discard_and_switch : Page F D → Option SettingsScope → Page F D
  unfolding set_active_scope
  discard_and_switch p none = p
  discard_and_switch p (some scope) = record (set_active_scope scope (on_reset p p.shown)) {
    pending_scope = none;
  }

  unfoldable pub handle_discard_and_switch : Page F D → Page F D
  unfolding discard_and_switch
  handle_discard_and_switch p = discard_and_switch p p.pending_scope

  unfoldable pub change : Event D V → Page F D → Page F D
  unfolding handle_scope_change handle_discard_and_switch
  change (loaded d) p = on_loaded d p p.shown
  change (edited k v) p = on_edited k v p p.shown
  change (scope_selected scope) p = handle_scope_change scope p
  change discard_confirmed p = handle_discard_and_switch p
  change dialog_closed p = record p { pending_scope = none }
  change discard_clicked p = if p.is_page_dirty then on_reset p p.shown else p
  change save_clicked p = p
  change form_submitted p = p
  change saved p = record p { is_saving = false }

  -- `form.handleSubmit(onSubmit)`: `parse` is the schema; data that it refuses are not sent.
  abbrev pub submit : (D → Option D) → Page F D → Option (Shown F D) → Option (Post D)
  submit parse p none = none
  submit parse p (some s) =
      post_parsed (settings_endpoint p.active_scope) (parse (lib.data_of s.form))

  -- The request that an event sends. The button is disabled while nothing was edited or a request
  -- is pending; the submit event of the form element is not guarded.
  unfoldable pub sent : (SettingsScope → D → Option D) → Event D V → Page F D → Option (Post D)
  sent schema save_clicked p =
      if not p.is_page_dirty || p.is_saving then none else submit (schema p.active_scope) p p.shown
  sent schema form_submitted p = submit (schema p.active_scope) p p.shown
  sent schema ev p = none

  unfoldable pub step : (SettingsScope → D → Option D) → Event D V → Page F D → Page F D
  unfolding change sent
  step schema ev p =
      let after = change ev p in
      record after { is_saving = after.is_saving || present (sent schema ev p) }

  unfoldable pub run : (SettingsScope → D → Option D) → List (Event D V) → Page F D → Page F D
  unfolding step
  run schema [] p = p
  run schema (ev ∷ evs) p = run schema evs (step schema ev p)

abbrev pub first_page : {F D : Type 0} → Page F D
first_page = record {
  active_scope = catalog;
  is_page_dirty = false;
  pending_scope = none;
  is_saving = false;
  shown = none;
}
