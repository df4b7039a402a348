-- ===== src/Config/Validate.antt =====
-- internal/config/config.go and internal/config/validators.go: the validation of a configuration, and Load.
use apm_go.Prelude.{
  ℕ, Bool, true, false, not, ◌&&◌, ◌||◌, List, [], ◌∷◌, Option, none, some, Bytes, codes, is_empty,
  cut, length, leb, ltb, ◌==◌, if◌then◌else◌, ◌>>=◌,
}
use apm_go.Prelude.Split.{has_byte}
use apm_go.Prelude.Int.{ℤ, pos, leb_ℤ}
use apm_go.Float.{Float64}
use apm_go.Log.{to_log_level}
use apm_go.Config.{validate, to_service_key}
use apm_go.Config.Env.{load_envs}
use apm_go.Config.Fields.{
  Config, ConfigOption, default_collector, reset, reset_then_disable, apply_options,
}
use apm_go.Config.Files.{System, load_config_file}
use apm_go.Config.Host.{is_valid_host}
use apm_go.Config.Values.{FloatText, int_value, getenv}

-- HasLambdaEnv
unfoldable pub has_lambda_env : (Bytes → Option Bytes) → Bool
unfolding getenv
has_lambda_env env =
    not (is_empty (getenv env (codes "AWS_LAMBDA_FUNCTION_NAME")))
    && not (is_empty (getenv env (codes "LAMBDA_TASK_ROOT")))

unfoldable pub is_valid_ec2_metadata_timeout : ℤ → Bool
is_valid_ec2_metadata_timeout t = leb_ℤ (pos 0) t && leb_ℤ t (pos 3000)

unfoldable pub is_alnum : ℕ → Bool
is_alnum c = (leb b'a' c && leb c b'z') || (leb b'A' c && leb c b'Z') || (leb b'0' c && leb c b'9')

unfoldable pub all_bytes : (ℕ → Bool) → Bytes → Bool
all_bytes p [] = true
all_bytes p (c ∷ s) = p c && all_bytes p s

abbrev is_token_char : ℕ → Bool
is_token_char c = is_alnum c || c == b'-' || c == b'_'

-- validServiceKeyPattern, `^([a-zA-Z0-9]{64}|[a-zA-Z0-9-_]{71}):.{1,255}$`: no token has a colon, and a dot is
-- any byte but the end of a line.
unfoldable pub is_valid_service_key : Bytes → Bool
unfolding is_alnum all_bytes has_byte
is_valid_service_key key =
    let (token, name, found) = cut b':' key in
    found
    && ((length token == 64 && all_bytes is_alnum token)
        || (length token == 71 && all_bytes is_token_char token))
    && ltb 0 (length name)
    && leb (length name) 255
    && not (has_byte 10 name)

module _ {F : Type 0} ⦃fl : Float64 F⦄ ⦃ft : FloatText F⦄ where
  unfoldable pub is_valid_token_bucket_rate : F → Bool
  is_valid_token_bucket_rate rate = fl.le_f (ft.of_nat 0) rate && fl.le_f rate (ft.of_nat 4)

  unfoldable pub is_valid_token_bucket_cap : F → Bool
  is_valid_token_bucket_cap cap = fl.le_f (ft.of_nat 0) cap && fl.le_f cap (ft.of_nat 8)

  -- Config.validate up to the service key. Every path is a valid file and every alias a valid one.
  unfoldable pub validate_address : Bool → Config F → Config F
  unfolding is_valid_ec2_metadata_timeout int_value
  validate_address lambda c = record c {
    collector = if is_valid_host c.collector then c.collector else default_collector;
    ec2_metadata_timeout =
        if is_valid_ec2_metadata_timeout c.ec2_metadata_timeout
        then c.ec2_metadata_timeout
        else (int_value (codes "1000")).0;
    transaction_name =
        if not (is_empty c.transaction_name) && not lambda then [] else c.transaction_name;
    service_key =
        if not lambda && not (is_empty c.service_key)
        then to_service_key c.service_key
        else c.service_key;
  }

  unfoldable pub validate_buckets : Config F → Config F
  unfolding is_valid_token_bucket_cap is_valid_token_bucket_rate
  validate_buckets c = record c {
    debug_level = if (to_log_level c.debug_level).1 then c.debug_level else codes "warn";
    token_bucket_cap =
        if is_valid_token_bucket_cap c.token_bucket_cap
        then c.token_bucket_cap
        else if fl.lt_f c.token_bucket_cap (ft.of_nat 0)
        then ft.of_nat 0
        else ft.of_nat 8;
    token_bucket_rate =
        if is_valid_token_bucket_rate c.token_bucket_rate
        then c.token_bucket_rate
        else if fl.lt_f c.token_bucket_rate (ft.of_nat 0)
        then ft.of_nat 0
        else ft.of_nat 4;
  }

  -- Config.validate: what it leaves, and whether the error is nil, which it is unless a service key is invalid. `none`
  -- is a nil pointer that is read.
  unfoldable pub validate_config : Bool → Config F → Option (Config F × Bool)
  unfolding validate_address validate_buckets
  validate_config lambda c =
      let d = validate_address lambda c in
      if not lambda && not (is_empty c.service_key) && not (is_valid_service_key d.service_key)
      then some (d, false)
      else do
        s ← d.sampling
        some (validate_buckets (record d { sampling = some (validate s) }), true)

  unfoldable pub validated_or_disabled : Config F × Bool → Config F
  validated_or_disabled (c, true) = c
  validated_or_disabled (c, false) = reset_then_disable c

  -- The end of Load.
  unfoldable pub finish_load : Bool → Config F → Option (Config F)
  finish_load lambda c =
      if not c.is_enabled
      then some (reset_then_disable c)
      else do out ← validate_config lambda c; some (validated_or_disabled out)

  -- Load once the file is read.
  unfoldable pub load_rest : System F → List ConfigOption → Config F → Option (Config F)
  unfolding has_lambda_env finish_load
  load_rest sys opts c =
      finish_load (has_lambda_env sys.lookup_env) (apply_options opts (load_envs sys.lookup_env c))

  -- Load
  unfoldable pub load_configuration : System F → List ConfigOption → Config F → Option (Config F)
  unfolding load_rest
  load_configuration sys opts c = do
    (d, err) ← load_config_file sys (reset c)
    elim err [ some e ↦ some (reset_then_disable d) | none ↦ load_rest sys opts d ]
