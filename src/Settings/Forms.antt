-- ===== src/Settings/Forms.antt =====
-- The forms of client/src/features/settings: their default values, the lists that grow and shrink,
-- and the input of the OAI sets as one text with commas.
use mathlib.Core.Bool.{false≢true}
use marc_comparator.Base.{
  nat_eqb, ℕ, zero, suc, ◌≡◌, refl, sym, ap, ◌∙◌, Bool, true, false, not, Option, none, some, List,
  [], ◌∷◌, ◌++◌, map, filter, length, leb, if◌then◌else◌, ◌==◌, All, Bool-cases, inl, inr, is_empty,
}
use marc_comparator.Base.Text.{Text, lit, text_eq}
use marc_comparator.Base.Int.{pos}
use marc_comparator.Sections.{comma, split, to_first}
use marc_comparator.Sections.Commas.{NoComma, split-append, split-name}
use marc_comparator.Settings.Schemas.{
  integer, CatalogClient, Mapping, LinkerConfig, ComparatorConfig, KrameriusConfig,
}

-- The client that the button of catalog-settings-form.tsx appends.
unfoldable pub new_client : {E : Type 0} → E → CatalogClient E
new_client extra = record {
  base = [];
  host = [];
  endpoint = lit "OAI";
  timeout = integer (pos 30);
  total_retry = integer (pos 5);
  retry_backoff_factor = integer (pos 1);
  system_number_pattern = lit "\\d{9}";
  oai_sets = [];
  oai_identifier_template = [];
  extra = extra;
}

abbrev pub new_mapping : Mapping
new_mapping = record { base = []; id_template = []; pattern = []; is_target = false }

abbrev pub linker_defaults : Option LinkerConfig → LinkerConfig
linker_defaults (some config) = config
linker_defaults none = record {
  api_url = lit "https://www.knihovny.cz/api/v1";
  mappings = new_mapping ∷ [];
}

abbrev pub comparator_defaults : Option ComparatorConfig → ComparatorConfig
comparator_defaults (some config) = config
comparator_defaults none = record {
  ollama_url = lit "http://localhost:11434";
  llm_enabled = false;
  nonstandard_llm_enabled = false;
  excellent_threshold = integer (pos 6);
  moderate_threshold = integer (pos 12);
}

abbrev pub kramerius_defaults : Option KrameriusConfig → KrameriusConfig
kramerius_defaults (some config) = config
kramerius_defaults none = record {
  url_to_pid_pattern = [];
  url_to_pid_wrong_path_pattern = [];
  url_to_pid_fallback_pattern = [];
  link_text_pattern = [];
  kramerius_host = [];
  kramerius_client_url = [];
  solr_cloud = true;
}

-- A list of the form: `append` at the end, and `remove` at an index, whose button is disabled
-- where it is the only row.
pub data RowEvent (A : Type 0) : Type 0 where
  row_added : A → RowEvent A
  row_removed : ℕ → RowEvent A

unfoldable pub remove_at : {A : Type 0} → ℕ → List A → List A
remove_at i [] = []
remove_at zero (x ∷ xs) = xs
remove_at (suc i) (x ∷ xs) = x ∷ remove_at i xs

unfoldable pub change_rows : {A : Type 0} → RowEvent A → List A → List A
unfolding remove_at
change_rows (row_added x) rows = rows ++ x ∷ []
change_rows (row_removed i) rows = if leb (length rows) 1 then rows else remove_at i rows

-- The checkboxes of process-records-settings-form.tsx.
unfoldable pub check_value : Bool → Text → List Text → List Text
check_value true value values = values ++ value ∷ []
check_value false value values = filter (λ b. not (b == value)) values

-- `join(", ")`, the text of the input.
unfoldable pub oai_text : List Text → Text
oai_text [] = []
oai_text (s ∷ []) = s
oai_text (s ∷ t ∷ sets) = s ++ comma ∷ 32 ∷ oai_text (t ∷ sets)

-- What a change of the input makes of its text; `trim_start` is of the platform.
unfoldable pub oai_value : (Text → Text) → Text → List Text
oai_value trim_start text = map trim_start (split text)

-- A set that the text shows as it is: no comma in it, and no space before it.
abbrev pub IsPlain : (Text → Text) → Text → Type 0
IsPlain trim_start s = NoComma s × (trim_start s ≡ s)

-- A space before a text stands before its first part.
split-space : (t : Text) → split (32 ∷ t) ≡ to_first 32 (split t)
unfolding split
split-space t = refl

trim_all-to_first :
    (trim_start : Text → Text) (parts : List Text)
    → is_empty parts ≡ false
    → ((t : Text) → trim_start (32 ∷ t) ≡ trim_start t)
    → map trim_start (to_first 32 parts) ≡ map trim_start parts
trim_all-to_first trim_start [] e law = absurd (false≢true (sym e))
trim_all-to_first trim_start (s ∷ parts) e law = ap (λ t. t ∷ map trim_start parts) (law s)

nonempty-to_first : (c : ℕ) (parts : List Text) → is_empty (to_first c parts) ≡ false
nonempty-to_first c [] = refl
nonempty-to_first c (s ∷ parts) = refl

split-nonempty : (t : Text) → is_empty (split t) ≡ false
unfolding split
split-nonempty [] = refl
split-nonempty (c ∷ cs) = elim (Bool-cases (nat_eqb c comma)) [
  | inl e ↦ rw e refl
  | inr e ↦ rw e (nonempty-to_first c (split cs))
]

split-oai_text :
    (trim_start : Text → Text) (s : Text) (sets : List Text)
    → ((t : Text) → trim_start (32 ∷ t) ≡ trim_start t)
    → All (IsPlain trim_start) (s ∷ sets)
    → map trim_start (split (oai_text (s ∷ sets))) ≡ s ∷ sets
unfolding oai_text
split-oai_text trim_start s [] law h = rw (split-name s h.0.0, h.0.1) refl
split-oai_text trim_start s (t ∷ sets) law h =
    let later = split-oai_text trim_start t sets law h.1 in
    rw (split-append s (32 ∷ oai_text (t ∷ sets)) h.0.0, h.0.1, split-space (oai_text (t ∷ sets)))
      (ap (λ ts. s ∷ ts)
        (trim_all-to_first trim_start (split (oai_text (t ∷ sets))) (split-nonempty _) law ∙ later))

-- Where `trimStart` drops a space: the sets of a client, none of which has a comma or a space before
-- it, are read back from the text of the input that shows them, if there is a set at all.
pub oai_value-oai_text :
    (trim_start : Text → Text) (s : Text) (sets : List Text)
    → ((t : Text) → trim_start (32 ∷ t) ≡ trim_start t)
    → All (IsPlain trim_start) (s ∷ sets)
    → oai_value trim_start (oai_text (s ∷ sets)) ≡ s ∷ sets
unfolding oai_value
oai_value-oai_text trim_start s sets law h = split-oai_text trim_start s sets law h
