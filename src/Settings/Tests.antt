-- ===== src/Settings/Tests.antt =====
-- The settings with a concrete form of one field, and the theorems about them.
use marc_comparator.Base.{
  ℕ, ◌≡◌, refl, ap, Bool, true, false, not, Option, none, some, List, [], ◌∷◌, filter, all, nat_eqb,
  nat_eqb_iff, if◌then◌else◌,
}
use marc_comparator.Base.Text.{Text, lit, text_eq, text_eqb}
use marc_comparator.Base.Int.{pos}
use marc_comparator.Sections.{split}
use marc_comparator.Settings.{
  SettingsScope, tasks, settings_endpoint, FormLib, Shown, Page, Post, first_page, Event, loaded,
  edited, scope_selected, discard_confirmed, form_submitted, run, step, change, sent,
  handle_scope_change, handle_discard_and_switch, discard_and_switch, set_active_scope,
  is_same_scope,
}
use marc_comparator.Settings.Unsaved.{edited_of, value_of, value_of-step, endpoint-sent}
use marc_comparator.Settings.Schemas.{
  integer, CatalogClient, CatalogSettings, parse_client, parse_clients, parse_catalog, clean_sets,
  is_catalog_client,
}
use marc_comparator.Settings.Parse.{parse_catalog-again}
use marc_comparator.Settings.Forms.{new_client, oai_text, oai_value, oai_value-oai_text}

-- A form with one field, as its default and its value.
abbrev differs : ℕ × ℕ → Bool
differs f = not (nat_eqb f.1 f.0)

abbrev kept_value : Bool → ℕ → ℕ → ℕ
kept_value true new old = old
kept_value false new old = new

same_twice : (n : ℕ) → not (nat_eqb n n) ≡ false
same_twice n = ap not ((nat_eqb_iff n n).1 refl)

abbrev one_field : FormLib (ℕ × ℕ) ℕ ℕ
one_field = record {
  make = λ d. (d, d);
  field = λ f k. f.1;
  edit = λ k v f. (f.0, v);
  reset = λ d f. (d, d);
  refresh = λ d f. (d, kept_value (differs f) d f.1);
  data_of = λ f. f.1;
  is_dirty = differs;
  is_field_dirty = λ f k. differs f;
  is_dirty-make = λ d. same_twice d;
  is_dirty-reset = λ d f. same_twice d;
  is_dirty-field = λ f k e. e;
  field-refresh = λ d f k e. ap (λ b. kept_value b d f.1) e;
}

abbrev schema : SettingsScope → ℕ → Option ℕ
schema scope d = some d

runs : Unit {0}
unfolding run step change sent handle_scope_change handle_discard_and_switch discard_and_switch
    set_active_scope is_same_scope parse_client parse_clients parse_catalog clean_sets
    is_catalog_client filter all text_eqb oai_text oai_value split new_client
runs = tt

abbrev editing : List (Event ℕ ℕ)
editing = loaded 3 ∷ edited (lit "k") 5 ∷ []

abbrev page : Page (ℕ × ℕ) ℕ
page = run one_field schema editing first_page

abbrev k : Text
k = lit "k"

edited_now : edited_of one_field page.shown k ≡ true
unfolding runs
edited_now = refl

value_of-step_example :
    value_of one_field (step one_field schema (scope_selected tasks) page).shown k
    ≡ value_of one_field page.shown k
value_of-step_example =
    value_of-step one_field schema editing (scope_selected tasks) k edited_now refl

abbrev switching : List (Event ℕ ℕ)
switching = loaded 3 ∷ edited k 5 ∷ scope_selected tasks ∷ discard_confirmed ∷ loaded 7 ∷ []

abbrev other_page : Page (ℕ × ℕ) ℕ
other_page = run one_field schema switching first_page

abbrev tasks_form : Shown (ℕ × ℕ) ℕ
tasks_form = record { of_scope = tasks; form = (7, 7); defaults = 7 }

abbrev tasks_post : Post ℕ
tasks_post = record { endpoint = settings_endpoint tasks; body = 7 }

shows_tasks : other_page.shown ≡ some tasks_form
unfolding runs
shows_tasks = refl

-- The submit event of the form sends settings that were not edited.
sends_unedited : sent one_field schema form_submitted other_page ≡ some tasks_post
unfolding runs
sends_unedited = refl

endpoint-sent_example : tasks_post.endpoint ≡ settings_endpoint tasks
endpoint-sent_example =
    endpoint-sent one_field schema switching form_submitted tasks_form tasks_post shows_tasks
      sends_unedited

abbrev client : CatalogClient ℕ
client = record {
  base = lit "b";
  host = lit "h";
  endpoint = lit "OAI";
  timeout = integer (pos 30);
  total_retry = integer (pos 5);
  retry_backoff_factor = integer (pos 1);
  system_number_pattern = lit "p";
  oai_sets = lit "x" ∷ [] ∷ [];
  oai_identifier_template = lit "t";
  extra = 0;
}

abbrev cleaned : CatalogClient ℕ
cleaned = record client { oai_sets = lit "x" ∷ [] }

abbrev settings : CatalogSettings ℕ
settings = record { clients = client ∷ []; kramerius_client_urls = none }

abbrev parsed : CatalogSettings ℕ
parsed = record { clients = cleaned ∷ []; kramerius_client_urls = some [] }

abbrev any_url : Text → Bool
any_url t = true

abbrev same_text : Text → Text
same_text t = t

parses : parse_catalog any_url same_text settings ≡ some parsed
unfolding runs
parses = refl

parse_catalog-again_example : parse_catalog any_url same_text parsed ≡ some parsed
parse_catalog-again_example =
    parse_catalog-again any_url same_text settings parsed (λ t. refl) parses

-- The client that is appended is refused until it is filled in.
new_refused : parse_client any_url same_text (new_client client.extra) ≡ none
unfolding runs
new_refused = refl

-- `trimStart` for the space alone.
abbrev drop_spaces : Text → Text
drop_spaces [] = []
drop_spaces (c ∷ cs) = let rest = drop_spaces cs in if nat_eqb c 32 then rest else c ∷ cs

oai_value-oai_text_example :
    oai_value drop_spaces (oai_text (lit "ab" ∷ lit "c" ∷ [])) ≡ lit "ab" ∷ lit "c" ∷ []
oai_value-oai_text_example =
    oai_value-oai_text drop_spaces (lit "ab") (lit "c" ∷ []) (λ t. refl)
      (((refl, (refl, tt)), refl), (((refl, tt), refl), tt))
