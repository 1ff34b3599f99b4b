-- ===== src/Pipeline/Manage/Killed/Both.antt =====
-- What is relied on of the SDK and the file system together, of those that stop.
use gobackup_docker.Base.{some, refl, Bool, false, none, Bytes}
use gobackup_docker.Apply.{FileSystem}
use gobackup_docker.Apply.Steps.{Steps, TempApart}
use gobackup_docker.Pipeline.Docker.Calls.{error, Sdk}
use gobackup_docker.Pipeline.Manage.Replace.Recovery.{AfterClear}
use gobackup_docker.Pipeline.Manage.Ensure.{RecordRead, Codec, unreadable}
use gobackup_docker.Pipeline.Manage.Ensure.Laws.{ReadTells}
use gobackup_docker.Pipeline.Manage.Wired.Laws.{WiredLaws}
use gobackup_docker.Pipeline.Manage.Killed.{
  mortal, Mortal, killed, mortal_sdk, mortal_files, mortal_read,
}
use gobackup_docker.Pipeline.Manage.Killed.Laws.{
  mortal_lem, mortal_same, mortal_DockerLaws, mortal_FileLaws,
}

-- a relation between the worlds before and after a call
abbrev pub Worlds : {W : Type 0} → (W → W → Type 0) → Mortal W → Mortal W → Type 0
Worlds R s t = R s.0 t.0

module _ {F : Type 0} {fs : FileSystem F} {apart : Bytes → Bool} {R : F → F → Type 0}
    (steps : Steps fs apart R) where
  stays :
      {A : Type 0} (call : F → F × A) (failure : A) (s : Mortal F)
      → R s.0 (call s.0).0
      → Worlds R s (mortal call failure s).0
  stays call failure s r = mortal_lem (λ f a. R s.0 f) call failure s.0 (steps.same s.0) r s.1

  pub mortal_Steps : Steps (mortal_files fs) apart (Worlds R)
  mortal_Steps = record {
    same = λ s. steps.same s.0;
    then_ = λ r s t a b. steps.then_ r.0 s.0 t.0 a b;
    temp_apart = λ p q s.
        mortal_lem (λ f a. TempApart apart a) (fs.create_temp p q) none s.0 tt
          (steps.temp_apart p q s.0) s.1;
    create_temp = λ p q s. stays (fs.create_temp p q) none s (steps.create_temp p q s.0);
    write = λ t text s a. stays (fs.write t text) false s (steps.write t text s.0 a);
    chmod = λ t mode s. stays (fs.chmod t mode) false s (steps.chmod t mode s.0);
    sync = λ t s. stays (fs.sync t) false s (steps.sync t s.0);
    close = λ t s. stays (fs.close t) false s (steps.close t s.0);
    rename = λ t p s a b. stays (fs.rename t p) false s (steps.rename t p s.0 a b);
    remove = λ t s a. stays (fs.remove t) false s (steps.remove t s.0 a);
    open_dir = λ p s. stays (fs.open_dir p) false s (steps.open_dir p s.0);
    sync_dir = λ p s. stays (fs.sync_dir p) false s (steps.sync_dir p s.0);
    close_dir = λ p s. stays (fs.close_dir p) false s (steps.close_dir p s.0);
  }

module _ {W : Type 0} {sdk : Sdk W} {fs : FileSystem W} {read_file : Bytes → W → W × RecordRead}
    {path : Bytes} {codec : Codec} (laws : WiredLaws sdk fs read_file path codec) where
  unfoldable pub mortal_WiredLaws :
      WiredLaws (mortal_sdk sdk) (mortal_files fs) (mortal_read read_file) path codec
  unfolding mortal_DockerLaws mortal_FileLaws
  mortal_WiredLaws =
      let read = laws.files.read path in
      record {
        docker = mortal_DockerLaws laws.docker;
        files = mortal_FileLaws laws.files;
        files_at = mortal_Steps laws.files_at;
        read_file_at = λ n s.
            mortal_same (laws.docker.at n) (read_file path) unreadable s (laws.read_file_at n s.0);
        read_file_read =
            λ s. mortal_same read (read_file path) unreadable s (laws.read_file_read s.0);
        read_file_tells = λ s.
            mortal_lem (λ w a. ReadTells (read s.0) a) (read_file path) unreadable s.0 tt
              (laws.read_file_tells s.0) s.1;
        remove_read = λ s.
            mortal_lem (λ w b. AfterClear (read s.0) (read w) b) (fs.remove path) false s.0 refl
              (laws.remove_read s.0) s.1;
        list_read = λ all s.
            mortal_same read (sdk.list_containers all) (error killed) s (laws.list_read all s.0);
        inspect_read = λ id s.
            mortal_same read (sdk.inspect_container id) (error killed) s (laws.inspect_read id s.0);
        create_read = λ r s.
            mortal_same read (sdk.create_container r) (error killed) s (laws.create_read r s.0);
        start_read = λ id s.
            mortal_same read (sdk.start_container id) (some killed) s (laws.start_read id s.0);
        stop_read = λ id timeout s.
            mortal_same read (sdk.stop_container id timeout) (some killed) s
              (laws.stop_read id timeout s.0);
        remove_container_read = λ id force s.
            mortal_same read (sdk.remove_container id force) (some killed) s
              (laws.remove_container_read id force s.0);
        decode-encode = laws.decode-encode;
      }
