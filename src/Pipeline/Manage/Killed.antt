-- ===== src/Pipeline/Manage/Killed.antt =====
-- The supervisor killed between two calls: after a number of calls of the SDK and of the file system
-- no call does anything any more. AtomicWrite may stop halfway.
pub mod Laws
pub mod Both
use gobackup_docker.Base.{ℕ, zero, suc, Bool, false, Option, none, some, Bytes, codes}
use gobackup_docker.Apply.{FileSystem}
use gobackup_docker.Pipeline.Docker.Calls.{DockerError, error, Sdk}
use gobackup_docker.Pipeline.Manage.Replace.{other}
use gobackup_docker.Pipeline.Manage.Ensure.{RecordRead, unreadable}

-- the world, and how many calls are still made
abbrev pub Mortal : Type 0 → Type 0
Mortal W = W × ℕ

abbrev pub mortal : {W A : Type 0} → (W → W × A) → A → Mortal W → Mortal W × A
mortal call failure (w, zero) = ((w, zero), failure)
mortal call failure (w, suc n) = (((call w).0, n), (call w).1)

abbrev pub killed : DockerError
killed = record { text = codes "killed"; class = other }

abbrev pub mortal_sdk : {W : Type 0} → Sdk W → Sdk (Mortal W)
mortal_sdk sdk = record {
  new_client = mortal sdk.new_client (some killed);
  ping = mortal sdk.ping (some killed);
  close_client = mortal sdk.close_client (some killed);
  info = mortal sdk.info (error killed);
  list_containers = λ all. mortal (sdk.list_containers all) (error killed);
  inspect_container = λ id. mortal (sdk.inspect_container id) (error killed);
  create_container = λ r. mortal (sdk.create_container r) (error killed);
  start_container = λ id. mortal (sdk.start_container id) (some killed);
  stop_container = λ id timeout. mortal (sdk.stop_container id timeout) (some killed);
  remove_container = λ id force. mortal (sdk.remove_container id force) (some killed);
}

abbrev pub mortal_files : {F : Type 0} → FileSystem F → FileSystem (Mortal F)
mortal_files fs = record {
  create_temp = λ p q. mortal (fs.create_temp p q) none;
  write = λ t text. mortal (fs.write t text) false;
  chmod = λ t mode. mortal (fs.chmod t mode) false;
  sync = λ t. mortal (fs.sync t) false;
  close = λ t. mortal (fs.close t) false;
  rename = λ t p. mortal (fs.rename t p) false;
  remove = λ t. mortal (fs.remove t) false;
  open_dir = λ p. mortal (fs.open_dir p) false;
  sync_dir = λ p. mortal (fs.sync_dir p) false;
  close_dir = λ p. mortal (fs.close_dir p) false;
}

abbrev pub mortal_read :
    {W : Type 0} → (Bytes → W → W × RecordRead) → Bytes → Mortal W → Mortal W × RecordRead
mortal_read read_file p = mortal (read_file p) unreadable
