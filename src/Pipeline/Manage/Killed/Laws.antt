-- ===== src/Pipeline/Manage/Killed/Laws.antt =====
-- What is relied on of the SDK and of the file system holds of those that stop.
use gobackup_docker.Base.{◌≡◌, refl, inl, ℕ, zero, suc, false, none, some, Bytes, codes, ◌++◌}
use gobackup_docker.Apply.{FileSystem, temp_pattern}
use gobackup_docker.Apply.Laws.{FileLaws, IsOther, AfterWrite, AfterRename}
use gobackup_docker.Pipeline.Docker.Client.{RawContainer}
use gobackup_docker.Pipeline.Docker.Calls.{done, error, Sdk}
use gobackup_docker.Pipeline.Manage.Wired.Laws.{Shows, Made, HasId, Removed, DockerLaws}
use gobackup_docker.Pipeline.Manage.Killed.{Mortal, mortal, killed, mortal_sdk, mortal_files}

-- a call that is made or fails without any effect
pub mortal_lem :
    {W A : Type 0} (P : W → A → Type 0) (call : W → W × A) (failure : A) (w : W)
    → P w failure
    → P (call w).0 (call w).1
    → (n : ℕ) → P (mortal call failure (w, n)).0.0 (mortal call failure (w, n)).1
mortal_lem P call failure w dead alive zero = dead
mortal_lem P call failure w dead alive (suc n) = alive

-- what a call leaves alone is left alone
pub mortal_same :
    {W A B : Type 0} (f : W → B) (call : W → W × A) (failure : A) (s : Mortal W)
    → f (call s.0).0 ≡ f s.0
    → f (mortal call failure s).0.0 ≡ f s.0
mortal_same f call failure (w, zero) h = refl
mortal_same f call failure (w, suc n) h = h

module _ {W : Type 0} {sdk : Sdk W} (laws : DockerLaws sdk) where
  pub mortal_any :
      (id : Bytes) (s : Mortal W) (c : RawContainer)
      → ((mortal_sdk sdk).inspect_container id s).1 ≡ done c
      → (n : Bytes) × (c.name ≡ codes "/" ++ n) × (laws.at n s.0 ≡ some c)
  mortal_any id (w, zero) c e = cc
  mortal_any id (w, suc n) c e = laws.inspect_any id w c e

  unfoldable pub mortal_DockerLaws : DockerLaws (mortal_sdk sdk)
  mortal_DockerLaws = record {
    at = λ n s. laws.at n s.0;
    is_plain = laws.is_plain;
    list_at = λ n all s.
        mortal_same (laws.at n) (sdk.list_containers all) (error killed) s (laws.list_at n all s.0);
    inspect_at = λ n id s.
        mortal_same (laws.at n) (sdk.inspect_container id) (error killed) s
          (laws.inspect_at n id s.0);
    inspect_plain = λ n s plain.
        mortal_lem (λ w a. Shows (laws.at n s.0) a) (sdk.inspect_container n) (error killed) s.0 tt
          (laws.inspect_plain n s.0 plain) s.1;
    inspect_any = mortal_any;
    create_at = λ r s h.
        mortal_lem (λ w a. Made r (laws.at r.name w) a) (sdk.create_container r) (error killed) s.0
          (rw h tt) (laws.create_at r s.0 h) s.1;
    start_at = λ n id s.
        mortal_same (laws.at n) (sdk.start_container id) (some killed) s (laws.start_at n id s.0);
    stop_at = λ n id timeout s h.
        mortal_lem (λ w a. HasId id (laws.at n w)) (sdk.stop_container id timeout) (some killed) s.0
          h (laws.stop_at n id timeout s.0 h) s.1;
    remove_at = λ n id force s h.
        mortal_lem (λ w a. Removed id (laws.at n w) a) (sdk.remove_container id force) (some killed)
          s.0 h (laws.remove_at n id force s.0 h) s.1;
  }

module _ {F : Type 0} {fs : FileSystem F} {path : Bytes} (laws : FileLaws fs path) where
  unfoldable pub mortal_FileLaws : FileLaws (mortal_files fs) path
  mortal_FileLaws = record {
    read = λ n s. laws.read n s.0;
    temp_other = λ s.
        mortal_lem (λ w a. IsOther path a) (fs.create_temp path temp_pattern) none s.0 tt
          (laws.temp_other s.0) s.1;
    temp_read = λ s.
        mortal_same (laws.read path) (fs.create_temp path temp_pattern) none s (laws.temp_read s.0);
    write_other = λ t text s n.
        mortal_same (laws.read path) (fs.write t text) false s (laws.write_other t text s.0 n);
    write_done = λ t text s.
        mortal_lem (λ w b. AfterWrite text (laws.read t w) b) (fs.write t text) false s.0 tt
          (laws.write_done t text s.0) s.1;
    chmod_read = λ n t mode s.
        mortal_same (laws.read n) (fs.chmod t mode) false s (laws.chmod_read n t mode s.0);
    sync_read = λ n t s. mortal_same (laws.read n) (fs.sync t) false s (laws.sync_read n t s.0);
    close_read = λ n t s. mortal_same (laws.read n) (fs.close t) false s (laws.close_read n t s.0);
    rename_read = λ t s.
        mortal_lem (λ w b. AfterRename (laws.read path s.0) (laws.read t s.0) (laws.read path w) b)
          (fs.rename t path) false s.0 (inl refl) (laws.rename_read t s.0) s.1;
    remove_other =
        λ t s n. mortal_same (laws.read path) (fs.remove t) false s (laws.remove_other t s.0 n);
    open_dir_read =
        λ s. mortal_same (laws.read path) (fs.open_dir path) false s (laws.open_dir_read s.0);
    sync_dir_read =
        λ s. mortal_same (laws.read path) (fs.sync_dir path) false s (laws.sync_dir_read s.0);
    close_dir_read =
        λ s. mortal_same (laws.read path) (fs.close_dir path) false s (laws.close_dir_read s.0);
  }
