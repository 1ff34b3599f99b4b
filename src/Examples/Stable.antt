-- ===== src/Examples/Stable.antt =====
-- The stability of a created engine: the result at an input.
use gobackup_docker.Base.Dict.{Dict}
use gobackup_docker.Pipeline.Docker.Client.{RawContainer}
use gobackup_docker.Base.{
  ◌++◌, refl, ◌≡◌, true, false, some, List, [], ◌∷◌, Bytes, codes, join, split, str_eq,
}
use gobackup_docker.Container.{empty_config}
use gobackup_docker.Pipeline.Docker.{InspectResult, ContainerSpec, MountDef, MountPoint}
use gobackup_docker.Pipeline.Manage.{
  Json, base_command, is_managed_mount, SecretExport, engine_spec, needs_recreate,
  mount_point_to_def,
}
use gobackup_docker.Pipeline.Manage.Mounts.{nothing, next}
use gobackup_docker.Pipeline.Manage.Stable.{Shows, needs_recreate-engine_spec}

-- an encoding of lists of texts that hold no line break
abbrev lines : Json
lines = record { marshal = λ cmd. join cmd (codes "\n"); unmarshal = λ t. some (split t b'\n') }

abbrev config_point : MountPoint
config_point = record {
  type = codes "bind";
  name = [];
  source = codes "/srv/gobackup";
  destination = codes "/etc/gobackup";
  rw = false;
}

abbrev data_point : MountPoint
data_point = record {
  type = codes "volume";
  name = codes "data";
  source = codes "/var/lib/docker/volumes/data/_data";
  destination = codes "/volumes/m/data";
  rw = false;
}

abbrev data_def : MountDef
data_def = record {
  type = codes "volume";
  source = codes "data";
  target = codes "/volumes/m/data";
  read_only = true;
}

abbrev exported : List SecretExport
exported =
    record { var = codes "GB_M_PASSWORD"; path = codes "/gobackup-secrets/GB_M_PASSWORD" } ∷ []

abbrev old_engine : InspectResult
old_engine = record {
  id = codes "old";
  name = codes "engine";
  image = codes "gobackup";
  command = codes "gobackup" ∷ codes "run" ∷ [];
  env = codes "TZ=UTC" ∷ [];
  labels = [];
  mounts = config_point ∷ [];
  networks = [];
}

abbrev vars : List Bytes
vars = codes "PW=x" ∷ []

abbrev spec : ContainerSpec
spec = engine_spec lines empty_config old_engine (data_def ∷ []) vars exported

abbrev new_engine : InspectResult
new_engine = record {
  id = codes "new";
  name = codes "engine";
  image = codes "gobackup";
  command = spec.command;
  env = codes "PW=x" ∷ codes "PATH=/bin" ∷ codes "TZ=UTC" ∷ [];
  labels = spec.labels;
  mounts = data_point ∷ config_point ∷ [];
  networks = [];
}

shown : Shows spec new_engine
unfolding engine_spec str_eq
shown = record {
  command = refl;
  env = (refl, (refl, tt));
  base = refl;
  mounts =
      next data_point (mount_point_to_def config_point ∷ []) [] refl
        (next config_point [] [] refl nothing);
}

needs_recreate_example :
    needs_recreate new_engine
      (engine_spec lines empty_config new_engine (data_def ∷ []) vars exported)
      vars
    ≡ false
unfolding str_eq base_command split join is_managed_mount
needs_recreate_example =
    needs_recreate-engine_spec lines empty_config old_engine new_engine (data_def ∷ []) vars
      exported refl refl refl (refl, tt) shown

-- what Docker shows of it, with a variable and a label of the image
abbrev raw : RawContainer
raw = record {
  id = codes "new";
  name = codes "/engine";
  mounts = new_engine.mounts;
  config = some (record {
    image = codes "gobackup";
    cmd = spec.command;
    env = codes "PATH=/bin" ∷ spec.env;
    labels = spec.labels ++ (codes "maintainer", codes "x") ∷ [];
  });
  networks = some [];
}
