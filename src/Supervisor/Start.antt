-- ===== src/Supervisor/Start.antt =====
-- cmd/gobackup-docker/main.go: main, up to the loop. The environment is a dictionary; the hostname,
-- the Docker SDK and time.ParseDuration are parameters.
pub mod First
use gobackup_docker.Base.{
  ◌++◌, ℕ, Bool, true, false, Option, none, some, List, [], ◌∷◌, Bytes, codes, is_empty,
  if◌then◌else◌,
}
use gobackup_docker.Base.Dict.{Dict}
use gobackup_docker.Container.{Config, empty_config, parse}
use gobackup_docker.Apply.{FileWriter}
use gobackup_docker.Pipeline.Docker.{InspectResult}
use gobackup_docker.Pipeline.Docker.Calls.{
  DockerError, Answer, done, error, Sdk, new, daemon_name, container_inspect,
}
use gobackup_docker.Pipeline.Reconcile.{Reconciler, new_reconciler}
use gobackup_docker.Supervisor.{MainConfig, getenv, main_config}
use gobackup_docker.Supervisor.Loop.{Loop, initial, fire}

-- the control plane: its address, and the URL of gobackup's
pub record Api : Type 0 where
  pub addr : Bytes
  pub gobackup_url : Bytes

-- the goroutines beside the loop
pub data Task : Type 0 where
  serve_api : Api → Task
  watching_events : Task
  watching_file : Bytes → Task

-- what runs when the loop begins
pub record Started : Type 0 where
  pub config : MainConfig
  pub spec : Config
  pub reconciler : Reconciler
  pub tasks : List Task
  pub loop : Loop

-- log.Fatalf ends the program
pub data Outcome : Type 0 where
  fatal : DockerError → Outcome
  running : Started → Outcome

abbrev name_given : {A : Type 0} → Answer A → Option A
name_given (done a) = some a
name_given (error e) = none

-- the labels of the supervisor's own container, if it could be inspected
abbrev config_of : Answer InspectResult → Config
config_of (done self) = parse self.labels
config_of (error e) = empty_config

module _ (environ : Dict Bytes) (parse_duration : Bytes → Option ℕ) (hostname : Option Bytes) where
  -- the control plane runs if it has an address
  unfoldable pub api_tasks : List Task
  unfolding getenv
  api_tasks =
      let addr = getenv environ parse_duration (codes "GOBACKUP_DOCKER_HTTP_ADDR") in
      let url = getenv environ parse_duration (codes "GOBACKUP_DOCKER_GOBACKUP_URL") in
      if is_empty addr then [] else serve_api (record { addr = addr; gobackup_url = url }) ∷ []

  -- the name under which the supervisor inspects itself
  unfoldable pub self_name : Option Bytes
  unfolding getenv
  self_name =
      let id = getenv environ parse_duration (codes "GOBACKUP_DOCKER_SELF_ID") in
      if is_empty id then hostname else some id

  unfoldable pub launched : Option Bytes → Config → Started
  unfolding main_config new_reconciler api_tasks fire
  launched host spec =
      let config = main_config environ parse_duration host in
      record {
        config = config;
        spec = spec;
        reconciler =
            new_reconciler config.settings (record { path = config.output_path; last = [] });
        tasks = api_tasks ++ watching_events ∷ watching_file config.defaults_path ∷ [];
        loop = record initial { pending = fire initial.pending };
      }

  module _ {W : Type 0} (sdk : Sdk W) where
    -- readSelfContainerConfig with its call
    unfoldable pub self_config : Option Bytes → W → W × Config
    unfolding container_inspect
    self_config none w = (w, empty_config)
    self_config (some id) w = let (w', a) = container_inspect sdk id w in (w', config_of a)

    -- the daemon is asked for its name only where the environment has none
    unfoldable pub host_name : W → W × Option Bytes
    unfolding getenv daemon_name
    host_name w =
        if is_empty (getenv environ parse_duration (codes "GOBACKUP_DOCKER_HOST_ID"))
        then (let (w', a) = daemon_name sdk w in (w', name_given a))
        else (w, none)

    unfoldable pub configured : Option Bytes → W × Config → W × Outcome
    unfolding launched
    configured host (w, spec) = (w, running (launched host spec))

    unfoldable pub named : W × Option Bytes → W × Outcome
    unfolding configured self_config self_name
    named (w, host) = configured host (self_config self_name w)

    unfoldable pub connected : W × Option DockerError → W × Outcome
    unfolding named host_name
    connected (w, some e) = (w, fatal e)
    connected (w, none) = named (host_name w)

    unfoldable pub main : W → W × Outcome
    unfolding connected new
    main w = connected (new sdk w)
