-- ===== src/Supervisor/Whole.antt =====
-- cmd/gobackup-docker/main.go: what a pass of the supervisor reaches, with the Docker client and the
-- file system in their places. The rest is in packages outside the repository.
pub mod Laws
pub mod Safety
pub mod Killed
use gobackup_docker.Base.{ℕ, Bool, true, Option, none, some, List, Bytes}
use gobackup_docker.Tree.{Fields}
use gobackup_docker.Render.Merge.{Engine}
use gobackup_docker.Render.Model.{Profiles}
use gobackup_docker.Apply.{FileSystem}
use gobackup_docker.Pipeline.Docker.{Container}
use gobackup_docker.Pipeline.Docker.Calls.{Answer, done, error, Sdk, list}
use gobackup_docker.Pipeline.Manage.{Json}
use gobackup_docker.Pipeline.Manage.Ensure.{RecordRead, Codec}
use gobackup_docker.Pipeline.Manage.Wired.{docker_host, pending_path}
use gobackup_docker.Pipeline.Reconcile.{World}

-- encoding/json, text/template, LoadProfiles of internal/render/profiles.go on the defaults file,
-- yaml.v3, and the clock
pub record Parts (W : Type 0) : Type 0 where
  pub codec : Codec
  pub json : Json
  pub engine : Engine
  pub load_profiles : W → W × Option Profiles
  pub is_yaml : Bytes → Bool
  pub marshal : Fields → Option Bytes
  pub now : W → ℕ

abbrev pub as_option : {A W : Type 0} → W × Answer A → W × Option A
as_option (w, done a) = (w, some a)
as_option (w, error e) = (w, none)

-- `output` is the path of the config
abbrev pub wired_world :
    {W : Type 0} → Sdk W → FileSystem W → (Bytes → W → W × RecordRead) → Parts W → Bytes → World W
wired_world sdk fs read_file parts output = record {
  managed = true;
  host = docker_host sdk fs read_file (pending_path output);
  codec = parts.codec;
  json = parts.json;
  engine = parts.engine;
  list = λ w. as_option (list sdk w);
  load_profiles = parts.load_profiles;
  files = fs;
  is_yaml = parts.is_yaml;
  marshal = parts.marshal;
  now = parts.now;
}
