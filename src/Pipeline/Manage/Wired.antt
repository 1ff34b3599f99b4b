-- ===== src/Pipeline/Manage/Wired.antt =====
-- The manager and the host as cmd/gobackup-docker/main.go wires them: the Docker client of
-- internal/docker/client.go, and for the record of internal/pipeline/manage.go package os and
-- AtomicWrite of internal/apply/filewatch.go.
pub mod Laws
pub mod Replacing
pub mod Safety
use gobackup_docker.Base.{Bool, true, false, Option, none, some, Bytes, codes, ◌++◌}
use gobackup_docker.Apply.{FileSystem, atomic_write}
use gobackup_docker.Pipeline.Docker.Calls.{
  DockerError, Answer, done, error, Sdk, list_all, container_inspect, container_create,
  container_start, container_stop, container_remove,
}
use gobackup_docker.Pipeline.Manage.Replace.{Failure, Result, ok, failed, Manager}
use gobackup_docker.Pipeline.Manage.Ensure.{RecordRead, Host}

-- what the pipeline asks of an error is its class
abbrev pub as_result : {A W : Type 0} → W × Answer A → W × Result A
as_result (w, done a) = (w, ok a)
as_result (w, error e) = (w, failed e.class)

abbrev pub as_failure : {W : Type 0} → W × Option DockerError → W × Option Failure
as_failure (w, none) = (w, none)
as_failure (w, some e) = (w, some e.class)

-- the file of the record beside the config
abbrev pub pending_path : Bytes → Bytes
pending_path output = output ++ codes ".container.json"

-- `read_file` is os.ReadFile; os.Remove is the one of the file system
module _ {W : Type 0} (sdk : Sdk W) (fs : FileSystem W) (read_file : Bytes → W → W × RecordRead)
    (path : Bytes) where
  unfoldable pub docker_manager : Manager W
  unfolding container_inspect container_create container_start container_stop container_remove
  docker_manager = record {
    inspect = λ id w. as_result (container_inspect sdk id w);
    stop = λ id w. as_failure (container_stop sdk id none w);
    remove = λ id w. as_failure (container_remove sdk id false w);
    create = λ spec w. as_result (container_create sdk spec w);
    start = λ id w. as_failure (container_start sdk id w);
    remove_record = fs.remove path;
  }

  unfoldable pub docker_host : Host W
  unfolding docker_manager list_all atomic_write
  docker_host = record {
    manager = docker_manager;
    list_all = λ w. as_result (list_all sdk w);
    read_record = read_file path;
    write_record = λ text w. atomic_write fs path text 0o600 w;
  }
