-- ===== src/Agent/Resources.antt =====
-- swo/resource.go: the resource that spans and metrics carry. The SDK's detectors are an interface; an error is a tree, as
-- errors.Is walks it, and `none` stands for no error. Setenv succeeds.
pub mod Conflicts
use apm_go.Prelude.{
  Bool, true, false, not, ◌&&◌, ◌||◌, List, [], ◌∷◌, ◌++◌, Option, none, some, Bytes, codes,
  is_empty, if◌then◌else◌,
}
use apm_go.Agent.{Detector, get_optional_detectors}
use apm_go.Config.Fields.{Config}
use apm_go.Config.Getters.{parsed_service_key}
use apm_go.Config.Values.{getenv}
use apm_go.Exporters.{Env, setenv}
use apm_go.Utils.{agent_version}

-- resource.ErrSchemaURLConflict, another error, an error that wraps one, and errors that are joined.
mutual
  pub data SdkError : Type 0 where
    schema_url_conflict : SdkError
    other_error : Bytes → SdkError
    wrapped : SdkError → SdkError
    joined : SdkErrors → SdkError

  pub data SdkErrors : Type 0 where
    no_errors : SdkErrors
    error_and : SdkError → SdkErrors → SdkErrors

-- errors.Is with ErrSchemaURLConflict
unfoldable mutual
  pub is_conflict : SdkError → Bool
  is_conflict schema_url_conflict = true
  is_conflict (other_error e) = false
  is_conflict (wrapped e) = is_conflict e
  is_conflict (joined es) = any_conflict es

  pub any_conflict : SdkErrors → Bool
  any_conflict no_errors = false
  any_conflict (error_and e es) = is_conflict e || any_conflict es

-- errors.Join of errors that are not nil.
unfoldable pub join_all : SdkErrors → Option SdkError
join_all no_errors = none
join_all (error_and e es) = some (joined (error_and e es))

unfoldable pub with_error : Option SdkError → SdkErrors → SdkErrors
with_error none es = es
with_error (some e) es = error_and e es

unfoldable pub without_conflicts : SdkErrors → SdkErrors
unfolding is_conflict
without_conflicts no_errors = no_errors
without_conflicts (error_and e es) =
    if not (is_conflict e) then error_and e (without_conflicts es) else without_conflicts es

-- filterSchemaURLConflict: nil for an error that is not joined of others.
unfoldable pub filter_schema_url_conflict : SdkError → Option SdkError
unfolding join_all without_conflicts
filter_schema_url_conflict schema_url_conflict = none
filter_schema_url_conflict (other_error e) = none
filter_schema_url_conflict (wrapped e) = none
filter_schema_url_conflict (joined es) = join_all (without_conflicts es)

-- The error of createResource, from the one of resource.New and the one of resource.Merge.
unfoldable pub resource_error : Option SdkError → Option SdkError → Option SdkError
unfolding join_all with_error is_conflict filter_schema_url_conflict
resource_error custom merged = elim (join_all (with_error custom (with_error merged no_errors))) [
  | none ↦ none
  | some e ↦ if is_conflict e then filter_schema_url_conflict e else some e
]

-- What resource.New is asked for, in this order: later attributes win.
pub data ResourceOption : Type 0 where
  with_service with_host with_container with_os with_process : ResourceOption
  with_process_runtime_description with_from_env : ResourceOption
  with_detectors : List Detector → ResourceOption
  with_attributes : List (Bytes × Bytes) → ResourceOption

-- resource.New in an environment, resource.Default and resource.Merge.
pub record Detection (R : Type 0) : Type 0 where
  pub new_resource : Env → List ResourceOption → R × Option SdkError
  pub default_resource : Env → R
  pub merge : R → R → R × Option SdkError

-- The environment that createResource leaves.
unfoldable pub resource_env : {F : Type 0} → Config F → Env → Env
unfolding parsed_service_key getenv setenv
resource_env c env =
    let (key, ok) = parsed_service_key c in
    let name = codes "OTEL_SERVICE_NAME" in
    let named =
      if ok && is_empty (getenv env name) then setenv name key.service_name env else env in
    let detector = codes "OTEL_GO_X_RESOURCE" in
    if is_empty (getenv named detector) then setenv detector (codes "false") named else named

unfoldable pub resource_options : List (Bytes × Bytes) → Env → List ResourceOption
unfolding getenv get_optional_detectors
resource_options attrs env =
    with_service
    ∷ with_host
    ∷ with_container
    ∷ with_os
    ∷ with_process
    ∷ with_process_runtime_description
    ∷ with_detectors
        (get_optional_detectors (getenv env (codes "SW_APM_DISABLED_RESOURCE_DETECTORS")))
    ∷ with_from_env
    ∷ with_attributes attrs
    ∷ with_attributes ((codes "sw.data.module", codes "apm") ∷ [])
    ∷ with_attributes ((codes "sw.apm.version", agent_version) ∷ [])
    ∷ []

-- createResource: the resource with its error, and the environment afterwards.
unfoldable pub create_resource :
    {F R : Type 0} → Detection R → Config F → List (Bytes × Bytes) → Env → R × Option SdkError × Env
unfolding resource_env resource_options resource_error
create_resource d c attrs env =
    let after = resource_env c env in
    let (custom, custom_error) = d.new_resource after (resource_options attrs after) in
    let (r, merge_error) = d.merge (d.default_resource after) custom in
    (r, resource_error custom_error merge_error, after)
