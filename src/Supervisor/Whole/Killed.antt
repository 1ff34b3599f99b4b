-- ===== src/Supervisor/Whole/Killed.antt =====
-- The program killed at any moment, in a pass or before.
use gobackup_docker.Base.{◌≡◌, refl, ℕ, Option, none, some, List, Bytes}
use gobackup_docker.Base.Dict.{Dict}
use gobackup_docker.Apply.{FileSystem}
use gobackup_docker.Pipeline.Docker.Calls.{Sdk, error}
use gobackup_docker.Pipeline.Manage.Ensure.{RecordRead}
use gobackup_docker.Pipeline.Manage.Ensure.Safety.{IsConsistent}
use gobackup_docker.Pipeline.Manage.Wired.Safety.{wired_HostLaws}
use gobackup_docker.Pipeline.Manage.Killed.{
  Mortal, mortal, killed, mortal_sdk, mortal_files, mortal_read,
}
use gobackup_docker.Pipeline.Manage.Killed.Laws.{mortal_lem, mortal_DockerLaws, mortal_FileLaws}
use gobackup_docker.Pipeline.Manage.Killed.Both.{mortal_Steps, mortal_WiredLaws}
use gobackup_docker.Supervisor.Loop.{Event}
use gobackup_docker.Supervisor.System.{System}
use gobackup_docker.Supervisor.Start.{Started, running, main}
use gobackup_docker.Supervisor.Start.First.{output_of}
use gobackup_docker.Supervisor.Whole.{Parts}
use gobackup_docker.Supervisor.Whole.Laws.{Untouched, WholeLaws}
use gobackup_docker.Supervisor.Whole.Safety.{MainRun, whole_lem}

abbrev pub mortal_parts : {W : Type 0} → Parts W → Parts (Mortal W)
mortal_parts parts = record {
  codec = parts.codec;
  json = parts.json;
  engine = parts.engine;
  load_profiles = mortal parts.load_profiles none;
  is_yaml = parts.is_yaml;
  marshal = parts.marshal;
  now = λ s. parts.now s.0;
}

module _ {W : Type 0} {sdk : Sdk W} {fs : FileSystem W} {read_file : Bytes → W → W × RecordRead}
    {parts : Parts W} {output : Bytes} (laws : WholeLaws sdk fs read_file parts output) where
  mortal-Untouched :
      {A : Type 0} (call : W → W × A) (failure : A) (s : Mortal W)
      → Untouched laws.wired s.0 (call s.0).0
      → Untouched (mortal_WiredLaws laws.wired) s (mortal call failure s).0
  unfolding mortal_WiredLaws mortal_DockerLaws mortal_FileLaws
  mortal-Untouched call failure s u =
      mortal_lem (λ w a. Untouched laws.wired s.0 w) call failure s.0 (λ n. refl, refl) u s.1

  pub mortal_WholeLaws :
      WholeLaws
        (mortal_sdk sdk)
        (mortal_files fs)
        (mortal_read read_file)
        (mortal_parts parts)
        output
  unfolding mortal_WiredLaws mortal_FileLaws
  mortal_WholeLaws = record {
    wired = mortal_WiredLaws laws.wired;
    files_read = mortal_Steps laws.files_read;
    load_leaves = λ s. mortal-Untouched parts.load_profiles none s (laws.load_leaves s.0);
    make_leaves = λ s. mortal-Untouched sdk.new_client (some killed) s (laws.make_leaves s.0);
    ping_leaves = λ s. mortal-Untouched sdk.ping (some killed) s (laws.ping_leaves s.0);
    close_leaves = λ s. mortal-Untouched sdk.close_client (some killed) s (laws.close_leaves s.0);
    info_leaves = λ s. mortal-Untouched sdk.info (error killed) s (laws.info_leaves s.0);
  }

  abbrev Consistent : Mortal W → Type 0
  Consistent = IsConsistent (wired_HostLaws (mortal_WiredLaws laws.wired))

  mortal-Consistent : (s : Mortal W) → IsConsistent (wired_HostLaws laws.wired) s.0 → Consistent s
  unfolding wired_HostLaws mortal_WiredLaws mortal_DockerLaws mortal_FileLaws
  mortal-Consistent s c p x v = c p (record { text = x.text; saved = x.saved; reads = x.reads }) v

  Consistent-mortal : (s : Mortal W) → Consistent s → IsConsistent (wired_HostLaws laws.wired) s.0
  unfolding wired_HostLaws mortal_WiredLaws mortal_DockerLaws mortal_FileLaws
  Consistent-mortal s c p x v = c p (record { text = x.text; saved = x.saved; reads = x.reads }) v

module _ {W : Type 0} {sdk : Sdk W} {fs : FileSystem W} {read_file : Bytes → W → W × RecordRead}
    {parts : Parts W} (environ : Dict Bytes) (parse_duration : Bytes → Option ℕ)
    (hostname : Option Bytes)
    (laws : WholeLaws sdk fs read_file parts (output_of environ parse_duration)) where
  -- If from some call on no call of the SDK and of the file system does anything any more, as where the
  -- program is killed between two of them, in AtomicWrite too, every saved record can be finished on
  -- the host that is left, those of an engine whose name Docker may take for the id of a container
  -- aside, whatever passes the program has run before, where that was so at its start.
  pub killed_lem :
      (w : W) (n : ℕ) (s : Started) (es : List Event) (t : System (Mortal W))
      → IsConsistent (wired_HostLaws laws.wired) w
      → (main environ parse_duration hostname (mortal_sdk sdk) (w, n)).1 ≡ running s
      → MainRun environ parse_duration hostname
          (mortal_WholeLaws laws)
          (main environ parse_duration hostname (mortal_sdk sdk) (w, n)).0
          s
          es
          t
      → IsConsistent (wired_HostLaws laws.wired) t.outside.0
  unfolding mortal_WholeLaws
  killed_lem w n s es t c e run =
      Consistent-mortal laws t.outside
        (whole_lem environ parse_duration hostname (mortal_WholeLaws laws) (w, n) s es t
          (mortal-Consistent laws (w, n) c) e run).0
