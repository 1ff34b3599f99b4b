-- ===== src/Pipeline/Docker/Calls.antt =====
-- internal/docker/client.go: the client's calls. The SDK behind them is a parameter: what it does to
-- the world outside, and its answer. The errors of the client wrap those of the SDK, so they are of
-- the class that package errdefs tells of the SDK's; the type of a text and of a class is modelled.
use gobackup_docker.Base.{
  ℕ, Bool, true, false, Option, none, some, List, Bytes, codes, ◌++◌, take, length, ltb,
  if◌then◌else◌,
}
use gobackup_docker.Tree.{ℤ}
use gobackup_docker.Pipeline.Docker.{Container, InspectResult, ContainerSpec}
use gobackup_docker.Pipeline.Docker.Client.{
  Summary, RawContainer, CreateRequest, containers_of, inspect_result, create_request,
}
use gobackup_docker.Pipeline.Manage.Replace.{Failure}

-- an error: its text, and its class
pub record DockerError : Type 0 where
  pub text : Bytes
  pub class : Failure

pub data Answer (A : Type 0) : Type 0 where
  done : A → Answer A
  error : DockerError → Answer A

-- The SDK's methods, with the options that the code sets: `new_client` is NewClientWithOpts from the
-- environment with negotiation of the version, `list_containers` is told whether it lists all,
-- without filters, `stop_container` its timeout and `remove_container` whether to force it. Of the
-- system's info only the name is used. For a call without a result `none` is no error.
pub record Sdk (W : Type 0) : Type 0 where
  pub new_client : W → W × Option DockerError
  pub ping : W → W × Option DockerError
  pub close_client : W → W × Option DockerError
  pub info : W → W × Answer Bytes
  pub list_containers : Bool → W → W × Answer (List Summary)
  pub inspect_container : Bytes → W → W × Answer RawContainer
  pub create_container : CreateRequest → W → W × Answer Bytes
  pub start_container : Bytes → W → W × Option DockerError
  pub stop_container : Bytes → Option ℤ → W → W × Option DockerError
  pub remove_container : Bytes → Bool → W → W × Option DockerError

unfoldable pub min : ℕ → ℕ → ℕ
min a b = if ltb a b then a else b

-- id[:min(len(id), 12)]
unfoldable pub brief : Bytes → Bytes
unfolding min
brief id = take (min (length id) 12) id

-- fmt.Errorf with %w
abbrev pub wrapped : Bytes → DockerError → DockerError
wrapped before e = record e { text = before ++ codes ": " ++ e.text }

abbrev pub wrapped_answer : {A : Type 0} → Bytes → Answer A → Answer A
wrapped_answer before (done a) = done a
wrapped_answer before (error e) = error (wrapped before e)

abbrev pub wrapped_error : Bytes → Option DockerError → Option DockerError
wrapped_error before none = none
wrapped_error before (some e) = some (wrapped before e)

module _ {W : Type 0} (sdk : Sdk W) where
  unfoldable pub pinged : W × Option DockerError → W × Option DockerError
  pinged (w, none) = (w, none)
  pinged (w, some e) = ((sdk.close_client w).0, some (wrapped (codes "ping docker daemon") e))

  unfoldable pub client_made : W × Option DockerError → W × Option DockerError
  unfolding pinged
  client_made (w, none) = pinged (sdk.ping w)
  client_made (w, some e) = (w, some (wrapped (codes "create docker client") e))

  -- New: without an error the client is ready
  unfoldable pub new : W → W × Option DockerError
  unfolding client_made
  new w = client_made (sdk.new_client w)

  unfoldable pub close : W → W × Option DockerError
  close w = sdk.close_client w

  -- HostID
  unfoldable pub daemon_name : W → W × Answer Bytes
  daemon_name w = let (w', a) = sdk.info w in (w', wrapped_answer (codes "docker info") a)

  unfoldable pub answered_list : Bytes → W × Answer (List Summary) → W × Answer (List Container)
  unfolding containers_of
  answered_list what (w, done summaries) = (w, done (containers_of summaries))
  answered_list what (w, error e) = (w, error (wrapped what e))

  unfoldable pub list : W → W × Answer (List Container)
  unfolding answered_list
  list w = answered_list (codes "list containers") (sdk.list_containers false w)

  unfoldable pub list_all : W → W × Answer (List Container)
  unfolding answered_list
  list_all w = answered_list (codes "list all containers") (sdk.list_containers true w)

  unfoldable pub answered_inspect : Bytes → W × Answer RawContainer → W × Answer InspectResult
  unfolding inspect_result brief
  answered_inspect id (w, done raw) = (w, done (inspect_result raw))
  answered_inspect id (w, error e) = (w, error (wrapped (codes "inspect container " ++ brief id) e))

  unfoldable pub container_inspect : Bytes → W → W × Answer InspectResult
  unfolding answered_inspect
  container_inspect id w = answered_inspect id (sdk.inspect_container id w)

  unfoldable pub container_create : ContainerSpec → W → W × Answer Bytes
  unfolding create_request
  container_create spec w =
      let (w', a) = sdk.create_container (create_request spec) w in
      (w', wrapped_answer (codes "create container") a)

  unfoldable pub container_start : Bytes → W → W × Option DockerError
  unfolding brief
  container_start id w =
      let (w', e) = sdk.start_container id w in
      (w', wrapped_error (codes "start container " ++ brief id) e)

  -- no timeout leaves that of the container or the daemon
  unfoldable pub container_stop : Bytes → Option ℤ → W → W × Option DockerError
  unfolding brief
  container_stop id timeout w =
      let (w', e) = sdk.stop_container id timeout w in
      (w', wrapped_error (codes "stop container " ++ brief id) e)

  unfoldable pub container_remove : Bytes → Bool → W → W × Option DockerError
  unfolding brief
  container_remove id force w =
      let (w', e) = sdk.remove_container id force w in
      (w', wrapped_error (codes "remove container " ++ brief id) e)
