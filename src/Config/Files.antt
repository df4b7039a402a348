-- ===== src/Config/Files.antt =====
-- internal/config/config.go: the configuration file. The file system, the environment and the YAML library are an
-- interface.
use apm_go.Prelude.{
  ℕ, ◌*◌, Bool, true, false, ◌||◌, List, [], ◌∷◌, reverse, Option, none, some, Bytes, codes,
  bytes_eq, is_empty, ltb, if◌then◌else◌,
}
use apm_go.Config.Fields.{Config}
use apm_go.Oboe.Urls.{ext_from}

-- What yaml.Unmarshal does to the pointer that loadYaml hands to it: it changes the configuration behind it in place, and succeeds
-- or not, or a document that is null sets the pointer to nil.
pub data Unmarshalled (F : Type 0) : Type 0 where
  filled : Config F → Bool → Unmarshalled F
  nil_pointer : Unmarshalled F

pub record System (F : Type 0) : Type 0 where
  -- os.LookupEnv
  pub lookup_env : Bytes → Option Bytes
  -- filepath.Abs, the size that os.Stat gives, and os.ReadFile; `none` for an error
  pub abs : Bytes → Option Bytes
  pub stat_size : Bytes → Option ℕ
  pub read_file : Bytes → Option Bytes
  -- yaml.Unmarshal
  pub unmarshal : Bytes → Config F → Unmarshalled F

pub data LoadError : Type 0 where
  stat_error file_too_large unsupported_format read_error yaml_error : LoadError

abbrev pub max_config_file_size : ℕ
max_config_file_size = 1024 * 1024

abbrev config_candidates : List Bytes
config_candidates =
    codes "./solarwinds-apm-goagent.yaml"
    ∷ codes "./solarwinds-apm-goagent.yml"
    ∷ codes "/solarwinds-apm-goagent.yaml"
    ∷ codes "/solarwinds-apm-goagent.yml"
    ∷ []

abbrev pub or_ptr : {A : Type 0} → Option A → Option A → Option A
or_ptr none orig = orig
or_ptr (some a) orig = some a

module _ {F : Type 0} (sys : System F) where
  unfoldable pub first_candidate : List Bytes → Bytes
  first_candidate [] = []
  first_candidate (file ∷ files) =
      let rest = first_candidate files in
      elim (sys.abs file) [
        | none ↦ rest
        | some abs ↦ elim (sys.stat_size abs) [ none ↦ rest | some size ↦ abs ]
      ]

  unfoldable pub get_config_path : Bytes
  unfolding first_candidate
  get_config_path = elim (sys.lookup_env (codes "SW_APM_CONFIG_FILE")) [
    | none ↦ first_candidate config_candidates
    | some path ↦ elim (sys.abs path) [ none ↦ first_candidate config_candidates | some abs ↦ abs ]
  ]

  -- What is left, and the error; `none` is the panic that reads the configuration's field through nil. A pointer field that the
  -- file set to nil gets its old value back, unless the file is rejected.
  unfoldable pub load_yaml : Bytes → Config F → Option (Config F × Option LoadError)
  load_yaml path c = elim (sys.read_file path) [
    | none ↦ some (c, some read_error)
    | some data_read ↦ elim (sys.unmarshal data_read c) [
      | nil_pointer ↦ none
      | filled d false ↦ some (d, some yaml_error)
      | filled d true ↦ some (
        record d {
          sampling = or_ptr d.sampling c.sampling;
          reporter_properties = or_ptr d.reporter_properties c.reporter_properties;
        },
        none,
      )
    ]
  ]

  unfoldable pub check_file_size : Bytes → Option LoadError
  check_file_size path = elim (sys.stat_size path) [
    | none ↦ some stat_error
    | some size ↦ if ltb max_config_file_size size then some file_too_large else none
  ]

  -- loadConfigFile, of the path that getConfigPath returns.
  unfoldable pub load_config_path : Bytes → Config F → Option (Config F × Option LoadError)
  unfolding load_yaml check_file_size ext_from
  load_config_path path c =
      let ext = ext_from (reverse path) [] in
      if is_empty path then some (c, none) else elim (check_file_size path) [
        | some e ↦ some (c, some e)
        | none ↦
            if bytes_eq ext (codes ".yml") || bytes_eq ext (codes ".yaml")
            then load_yaml path c
            else some (c, some unsupported_format)
      ]

  unfoldable pub load_config_file : Config F → Option (Config F × Option LoadError)
  unfolding get_config_path load_config_path
  load_config_file c = load_config_path get_config_path c
