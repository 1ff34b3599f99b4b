-- ===== src/Supervisor.antt =====
-- cmd/gobackup-docker/main.go: the settings from the environment, and what drives a pass. The
-- environment is a dictionary, time.ParseDuration and the Docker client are parameters.
pub mod Loop
pub mod Watch
pub mod Whole
pub mod Start
pub mod System
use gobackup_docker.Base.{
  ℕ, Bool, true, false, Option, none, some, List, [], ◌∷◌, Bytes, codes, is_empty, if◌then◌else◌,
}
use gobackup_docker.Base.Dict.{Dict, get}
use gobackup_docker.Labels.{one_of}
use gobackup_docker.Pipeline.Discover.{Settings}
use gobackup_docker.Pipeline.Manage.{or_text}

-- strconv.ParseBool
abbrev true_spellings : List Bytes
true_spellings = codes "1" ∷ codes "t" ∷ codes "T" ∷ codes "true" ∷ codes "TRUE" ∷ codes "True" ∷ []

abbrev false_spellings : List Bytes
false_spellings =
    codes "0" ∷ codes "f" ∷ codes "F" ∷ codes "false" ∷ codes "FALSE" ∷ codes "False" ∷ []

unfoldable bool_of : Bytes → Option Bool
unfolding one_of
bool_of v =
    if one_of v true_spellings
    then some true
    else if one_of v false_spellings
    then some false
    else none

abbrev or_default : {A : Type 0} → A → Option A → A
or_default d none = d
or_default d (some a) = a

-- what main passes to the pipeline, with the file that it writes; durations are in nanoseconds
pub record MainConfig : Type 0 where
  pub defaults_path : Bytes
  pub debounce : ℕ
  pub output_path : Bytes
  pub settings : Settings

module _ (environ : Dict Bytes) (parse_duration : Bytes → Option ℕ) where
  unfoldable env : Bytes → Bytes → Bytes
  unfolding get
  env key def = or_default def (get key environ)

  -- a value that cannot be read gives the default
  unfoldable env_bool : Bytes → Bool → Bool
  unfolding get bool_of
  env_bool key def = elim (get key environ) [ none ↦ def | some v ↦ or_default def (bool_of v) ]

  unfoldable env_dur : Bytes → ℕ → ℕ
  unfolding get
  env_dur key def = elim (get key environ) [
    | none ↦ def
    | some v ↦ or_default def (parse_duration v)
  ]

  -- os.Getenv
  abbrev pub getenv : Bytes → Bytes
  unfolding get
  getenv key = or_text (get key environ)

  -- `host` is the name that the daemon gave, if it gave one
  abbrev host_id : Option Bytes → Bytes
  host_id host =
      let id = getenv (codes "GOBACKUP_DOCKER_HOST_ID") in if is_empty id then or_text host else id

  unfoldable pub main_config : Option Bytes → MainConfig
  unfolding env env_bool env_dur
  main_config host = record {
    defaults_path =
        env (codes "GOBACKUP_DOCKER_DEFAULTS") (codes "/etc/gobackup-docker/defaults.yml");
    debounce = env_dur (codes "GOBACKUP_DOCKER_DEBOUNCE") 500000000;
    output_path = env (codes "GOBACKUP_DOCKER_OUTPUT") (codes "/etc/gobackup/gobackup.yml");
    settings = record {
      instance_name = getenv (codes "GOBACKUP_DOCKER_INSTANCE");
      host_id = host_id host;
      exposed_by_default = env_bool (codes "GOBACKUP_DOCKER_EXPOSED_BY_DEFAULT") false;
    };
  }
