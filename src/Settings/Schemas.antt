-- ===== src/Settings/Schemas.antt =====
-- The schemas of client/src/features/settings/schemas.ts, with the types of settings that they
-- check. Whether a text is a URL, and `trim`, are arguments.
use marc_comparator.Base.{
  Bool, true, false, not, ◌&&◌, Option, none, some, List, [], ◌∷◌, map, filter, is_empty, all,
  if◌then◌else◌, ◌==◌, ◌>>=◌,
}
use marc_comparator.Base.Text.{Text, lit, text_eq, truthy}
use marc_comparator.Base.Int.{ℤ, pos, leb_ℤ}

-- A number of a form: an integer, or one that `int()` refuses.
pub data Num : Type 0 where
  integer : ℤ → Num
  fractional : Num

abbrev pub is_int_from : ℤ → Num → Bool
is_int_from low (integer n) = leb_ℤ low n
is_int_from low fractional = false

abbrev pub is_int_between : ℤ → ℤ → Num → Bool
is_int_between low high (integer n) = leb_ℤ low n && leb_ℤ n high
is_int_between low high fractional = false

-- `E` are the keys that the form does not edit, which the schema lets through.
pub record CatalogClient (E : Type 0) : Type 0 where
  pub base : Text
  pub host : Text
  pub endpoint : Text
  pub timeout : Num
  pub total_retry : Num
  pub retry_backoff_factor : Num
  pub system_number_pattern : Text
  pub oai_sets : List Text
  pub oai_identifier_template : Text
  pub extra : E

pub record CatalogSettings (E : Type 0) : Type 0 where
  pub clients : List (CatalogClient E)
  pub kramerius_client_urls : Option (List (Text × Text))

pub record TaskSettings : Type 0 where
  pub progress_update_interval : Num
  pub commit_interval : Num
  pub analytics_rebuild_interval : Num

unfoldable pub is_task_settings : TaskSettings → Bool
is_task_settings s =
    is_int_from (pos 1) s.progress_update_interval
    && is_int_from (pos 1) s.commit_interval
    && is_int_from (pos 0) s.analytics_rebuild_interval

pub record Mapping : Type 0 where
  pub base : Text
  pub id_template : Text
  pub pattern : Text
  pub is_target : Bool

unfoldable pub is_mapping : Mapping → Bool
is_mapping m = truthy m.base && truthy m.id_template && truthy m.pattern

pub record LinkerConfig : Type 0 where
  pub api_url : Text
  pub mappings : List Mapping

-- `nullable()`.
abbrev pub is_null_or {ℓ} : {A : Type ℓ} → (A → Bool) → Option A → Bool
is_null_or test none = true
is_null_or test (some x) = test x

pub record ComparatorConfig : Type 0 where
  pub ollama_url : Text
  pub llm_enabled : Bool
  pub nonstandard_llm_enabled : Bool
  pub excellent_threshold : Num
  pub moderate_threshold : Num

pub record KrameriusConfig : Type 0 where
  pub url_to_pid_pattern : Text
  pub url_to_pid_wrong_path_pattern : Text
  pub url_to_pid_fallback_pattern : Text
  pub link_text_pattern : Text
  pub kramerius_host : Text
  pub kramerius_client_url : Text
  pub solr_cloud : Bool

pub record ProcessRecordsSettings : Type 0 where
  pub target_bases : List Text
  pub authority_linkers : List Text
  pub validators : List Text

unfoldable pub is_process_records_settings : ProcessRecordsSettings → Bool
is_process_records_settings s =
    all truthy s.target_bases
    && not (is_empty s.target_bases)
    && all (λ l. l == lit "knihovny-cz") s.authority_linkers
    && not (is_empty s.authority_linkers)
    && all (λ v. v == lit "kramerius-links") s.validators
    && not (is_empty s.validators)

pub record PeriodicTask : Type 0 where
  pub enabled : Bool
  pub interval_hours : Num

unfoldable pub is_periodic_task : PeriodicTask → Bool
is_periodic_task t = is_int_between (pos 1) (pos 720) t.interval_hours

pub record MaintenanceSettings : Type 0 where
  pub task_cleanup : PeriodicTask
  pub task_cleanup_max_age_days : Num
  pub sector_compaction : PeriodicTask

unfoldable pub is_maintenance_settings : MaintenanceSettings → Bool
unfolding is_periodic_task
is_maintenance_settings s =
    is_periodic_task s.task_cleanup
    && is_int_between (pos 1) (pos 365) s.task_cleanup_max_age_days
    && is_periodic_task s.sector_compaction

module _ (is_url : Text → Bool) where
  unfoldable pub is_linker_config : LinkerConfig → Bool
  unfolding is_mapping
  is_linker_config c = is_url c.api_url && all is_mapping c.mappings && not (is_empty c.mappings)

  unfoldable pub is_comparator_config : ComparatorConfig → Bool
  is_comparator_config c =
      is_url c.ollama_url
      && is_int_between (pos 0) (pos 100) c.excellent_threshold
      && is_int_between (pos 0) (pos 100) c.moderate_threshold

  unfoldable pub is_kramerius_config : KrameriusConfig → Bool
  is_kramerius_config c =
      truthy c.url_to_pid_pattern
      && truthy c.url_to_pid_wrong_path_pattern
      && truthy c.url_to_pid_fallback_pattern
      && truthy c.link_text_pattern
      && is_url c.kramerius_host
      && truthy c.kramerius_client_url

-- The segments of `oai_sets` that are left before it is checked.
unfoldable pub clean_sets : (Text → Text) → List Text → List Text
clean_sets trim sets = filter truthy (map trim sets)

unfoldable pub is_catalog_client : {E : Type 0} → (Text → Bool) → CatalogClient E → Bool
is_catalog_client is_url c =
    truthy c.base
    && is_url c.host
    && truthy c.endpoint
    && is_int_between (pos 1) (pos 300) c.timeout
    && is_int_between (pos 0) (pos 20) c.total_retry
    && is_int_between (pos 0) (pos 10) c.retry_backoff_factor
    && truthy c.system_number_pattern
    && (all truthy c.oai_sets && not (is_empty c.oai_sets))
    && truthy c.oai_identifier_template

abbrev pub accept {ℓ} : {A : Type ℓ} → Bool → A → Option A
accept b x = if b then some x else none

unfoldable pub parse_client :
    {E : Type 0} → (Text → Bool) → (Text → Text) → CatalogClient E → Option (CatalogClient E)
unfolding clean_sets is_catalog_client
parse_client is_url trim c =
    let cleaned = record c { oai_sets = clean_sets trim c.oai_sets } in
    accept (is_catalog_client is_url cleaned) cleaned

unfoldable pub parse_clients :
    {E : Type 0}
    → (Text → Bool)
    → (Text → Text)
    → List (CatalogClient E)
    → Option (List (CatalogClient E))
unfolding parse_client
parse_clients is_url trim [] = some []
parse_clients is_url trim (c ∷ cs) = do
  parsed ← parse_client is_url trim c
  rest ← parse_clients is_url trim cs
  some (parsed ∷ rest)

abbrev pub given_urls : Option (List (Text × Text)) → List (Text × Text)
given_urls none = []
given_urls (some urls) = urls

unfoldable pub parse_catalog :
    {E : Type 0} → (Text → Bool) → (Text → Text) → CatalogSettings E → Option (CatalogSettings E)
unfolding parse_clients
parse_catalog is_url trim s = do
  parsed ← parse_clients is_url trim s.clients
  accept (not (is_empty parsed)) (record {
    clients = parsed;
    kramerius_client_urls = some (given_urls s.kramerius_client_urls);
  })

-- The schemas whose only key may be null: a linker, a comparator and a validator that are not set up.
unfoldable pub is_authority_linking_settings : (Text → Bool) → Option LinkerConfig → Bool
unfolding is_linker_config
is_authority_linking_settings is_url s = is_null_or (is_linker_config is_url) s

unfoldable pub is_comparison_settings : (Text → Bool) → Option ComparatorConfig → Bool
unfolding is_comparator_config
is_comparison_settings is_url s = is_null_or (is_comparator_config is_url) s

unfoldable pub is_validation_settings : (Text → Bool) → Option KrameriusConfig → Bool
unfolding is_kramerius_config
is_validation_settings is_url s = is_null_or (is_kramerius_config is_url) s
