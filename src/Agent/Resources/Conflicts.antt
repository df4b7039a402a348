-- ===== src/Agent/Resources/Conflicts.antt =====
-- Which errors of the SDK's detection are dropped.
use apm_go.Prelude.{
  Bool, false, ◌&&◌, List, Option, none, some, ◌≡◌, refl, arith, Bytes, codes, is_empty, bytes_eq,
  if◌then◌else◌,
}
use apm_go.Agent.Resources.{
  SdkError, no_errors, is_conflict, join_all, with_error, without_conflicts,
  filter_schema_url_conflict, resource_error, resource_env, resource_options, Detection,
  create_resource,
}
use apm_go.Config.Fields.{Config}
use apm_go.Config.Getters.{parsed_service_key}
use apm_go.Config.Values.{getenv}
use apm_go.Exporters.{Env, setenv}

-- The error, unless a conflict is somewhere in it.
abbrev pub kept : Option SdkError → Option SdkError
kept none = none
kept (some e) = if is_conflict e then none else some e

abbrev pub has_conflict : Option SdkError → Bool
has_conflict e = elim e [ none ↦ false | some e ↦ is_conflict e ]

-- The error of the resource joins those of the two steps that have no conflict anywhere in them: an error of a detector is
-- lost where the same step has a conflict.
resource_error_lem :
    (custom merged : Option SdkError)
    → resource_error custom merged
      ≡ join_all (with_error (kept custom) (with_error (kept merged) no_errors))
unfolding resource_error join_all with_error filter_schema_url_conflict without_conflicts
    is_conflict
resource_error_lem none none = refl
resource_error_lem none (some e) = ground arith
resource_error_lem (some e) none = ground arith
resource_error_lem (some e) (some f) = ground arith

resource_error-free :
    (custom merged : Option SdkError) → has_conflict (resource_error custom merged) ≡ false
unfolding resource_error join_all with_error filter_schema_url_conflict without_conflicts
    is_conflict
resource_error-free none none = refl
resource_error-free none (some e) = ground arith
resource_error-free (some e) none = ground arith
resource_error-free (some e) (some f) = ground arith

service_name-resource_env :
    {F : Type 0} (c : Config F) (env : Env)
    → let (key, ok) = parsed_service_key c in
      let name = codes "OTEL_SERVICE_NAME" in
      getenv (resource_env c env) name
      ≡ (if ok && is_empty (getenv env name) then key.service_name else getenv env name)
unfolding resource_env getenv setenv bytes_eq
service_name-resource_env c env = ground arith

-- createResource has an error exactly if one of its two steps has an error without a conflict of schemas anywhere in it, and joins
-- those that have none: a detector's error is lost where the same step has a conflict. The service's name in the environment is
-- the key's, where the key is taken apart and the environment had none, and is not touched otherwise.
pub create_resource_lem :
    {F R : Type 0} (d : Detection R) (c : Config F) (attrs : List (Bytes × Bytes)) (env : Env)
    → let (r, err, after) = create_resource d c attrs env in
      let (custom, e) = d.new_resource after (resource_options attrs after) in
      let (default_merged, f) = d.merge (d.default_resource after) custom in
      let (key, ok) = parsed_service_key c in
      let name = codes "OTEL_SERVICE_NAME" in
      (r ≡ default_merged)
      × (err ≡ join_all (with_error (kept e) (with_error (kept f) no_errors)))
      × (has_conflict err ≡ false)
      × (getenv after name
          ≡ (if ok && is_empty (getenv env name) then key.service_name else getenv env name))
unfolding create_resource
create_resource_lem d c attrs env =
    let after = resource_env c env in
    let (custom, e) = d.new_resource after (resource_options attrs after) in
    let (default_merged, f) = d.merge (d.default_resource after) custom in
    (refl, resource_error_lem e f, resource_error-free e f, service_name-resource_env c env)
