-- ===== src/Examples/Wired.antt =====
-- The engine replaced by way of the SDK and the file system of a place.
use gobackup_docker.Pipeline.Manage.Wired.Replacing.{seen}
use gobackup_docker.Pipeline.Manage.Replace.Recovery.{Resumable}
use gobackup_docker.Base.{inl, subst, ◌≡◌, refl, true, none, some, [], ◌∷◌, codes, str_eq}
use gobackup_docker.Container.{empty_config}
use gobackup_docker.Apply.{atomic_write}
use gobackup_docker.Pipeline.Docker.Client.{inspect_result, RawContainer}
use gobackup_docker.Pipeline.Docker.Calls.{
  list_all, container_inspect, container_create, container_start, container_stop, container_remove,
}
use gobackup_docker.Pipeline.Manage.{
  needs_recreate, engine_spec, EngineExtras, gobackup_component_label, gobackup_component_value,
}
use gobackup_docker.Pipeline.Manage.Replace.{
  PendingReplacement, is_valid_pending, resume_replacement,
}
use gobackup_docker.Pipeline.Manage.Ensure.{find_gobackup_container, ensure_gobackup_container}
use gobackup_docker.Pipeline.Manage.Ensure.Laws.{Leaves}
use gobackup_docker.Pipeline.Manage.Ensure.Safety.{IsConsistent}
use gobackup_docker.Pipeline.Manage.Wired.{docker_host, docker_manager}
use gobackup_docker.Pipeline.Manage.Wired.Safety.{wired_HostLaws, ensure-docker_host}
use native.Mathlib.Decide.{ℕ_discrete}
use gobackup_docker.Examples.Ensure.{sample, PendingReplacement-discrete, codec, plain_json}
use gobackup_docker.Examples.Place.{named, Place, path, files, read_file, sdk}
use gobackup_docker.Examples.PlaceLaws.{files_Laws, wired_Laws}

-- the engine, with an environment that is to be changed, and no record
abbrev engine : RawContainer
engine = record {
  id = codes "old";
  name = codes "/engine";
  mounts = [];
  config = some (record {
    image = codes "gobackup";
    cmd = codes "gobackup" ∷ [];
    env = [];
    labels = (gobackup_component_label, gobackup_component_value) ∷ [];
  });
  networks = some [];
}

abbrev pub place : Place
place = record { container = some engine; temporary = none; saved = none }

abbrev extras : EngineExtras
extras = record { extra_mounts = []; env_vars = codes "PW=x" ∷ []; secret_exports = [] }

-- the same engine, with a record whose replacement was cut off
abbrev pub recorded : Place
recorded = record { container = some engine; temporary = none; saved = some (codes "r") }

recorded_sample : Resumable sample (seen (named sample.spec.name (some engine)))
unfolding inspect_result engine_spec str_eq
recorded_sample = inl refl

pub recorded-Resumable :
    (p : PendingReplacement)
    → some sample ≡ some p
    → Resumable p (seen (named p.spec.name (some engine)))
recorded-Resumable p e =
    let same : sample ≡ p = cc e in
    subst (λ q. Resumable q (seen (named q.spec.name (some engine)))) same recorded_sample

pub place-IsConsistent : IsConsistent (wired_HostLaws wired_Laws) place
unfolding wired_HostLaws wired_Laws files_Laws str_eq
place-IsConsistent p s v = cc (s.saved)

ensure-docker_host_example :
    let laws = wired_HostLaws wired_Laws in
    let host = docker_host sdk files read_file path in
    let after = (ensure_gobackup_container host codec plain_json empty_config extras place).0 in
    Leaves laws place after × IsConsistent laws after
ensure-docker_host_example =
    ensure-docker_host wired_Laws plain_json empty_config extras place place-IsConsistent

-- the engine is replaced by one with a new id
ensure_runs_wired :
    let host = docker_host sdk files read_file path in
    (ensure_gobackup_container host codec plain_json empty_config extras place).1
    ≡ some (codes "gobackupcmdoldx", true)
unfolding ensure_gobackup_container docker_host str_eq find_gobackup_container needs_recreate
    engine_spec is_valid_pending PendingReplacement-discrete ℕ_discrete resume_replacement
    atomic_write list_all docker_manager container_inspect container_create container_start
    container_stop container_remove
ensure_runs_wired = refl
