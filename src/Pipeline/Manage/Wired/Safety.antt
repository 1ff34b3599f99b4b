-- ===== src/Pipeline/Manage/Wired/Safety.antt =====
-- The wired host does what ensureGobackupContainer relies on.
use gobackup_docker.Pipeline.Manage.Ensure.Steps.{HostSteps}
use gobackup_docker.Base.{
  none, inl, codes, sym, ◌∙◌, ap, refl, ◌≡◌, Bool, true, false, Option, some, Bytes,
}
use gobackup_docker.Container.{Config}
use gobackup_docker.Apply.{FileSystem, atomic_write}
use gobackup_docker.Apply.Laws.{FileLaws}
use gobackup_docker.Apply.Atomic.{Ends, atomic_write-Ends}
use gobackup_docker.Apply.Steps.{atomic_write_step}
use gobackup_docker.Pipeline.Docker.{InspectResult}
use gobackup_docker.Pipeline.Docker.Client.{inspect_result, create_request}
use gobackup_docker.Pipeline.Docker.Shown.{trim_slash}
use gobackup_docker.Pipeline.Docker.Calls.{Sdk, container_inspect, list_all}
use gobackup_docker.Pipeline.Manage.{Json, EngineExtras}
use gobackup_docker.Pipeline.Manage.Replace.{ok}
use gobackup_docker.Pipeline.Manage.Ensure.{RecordRead, Codec, ensure_gobackup_container}
use gobackup_docker.Pipeline.Manage.Ensure.Laws.{
  cleared-Kept, Kept-then, Kept, silent, HostLaws, AfterWrite, Leaves,
}
use gobackup_docker.Pipeline.Manage.Ensure.Safety.{IsConsistent, ensure_lem}
use gobackup_docker.Pipeline.Manage.Wired.{docker_manager, docker_host}
use gobackup_docker.Pipeline.Manage.Wired.Laws.{WiredLaws}
use gobackup_docker.Pipeline.Manage.Wired.Replacing.{
  start_left, create_left, remove_left, stop_left, mgr, held, seen, inspect_left, inspect_tells,
  list_world, wired_Daemon,
}

pub Ends-AfterWrite :
    {F : Type 0} {fs : FileSystem F} {path : Bytes} (laws : FileLaws fs path)
    (before : Option Bytes) (text : Bytes) (fr : F × Bool)
    → Ends laws before text fr
    → AfterWrite text before (laws.read path fr.0) fr.1
Ends-AfterWrite laws before text (f, true) e = e
Ends-AfterWrite laws before text (f, false) e = e

module _ {W : Type 0} {sdk : Sdk W} {fs : FileSystem W} {read_file : Bytes → W → W × RecordRead}
    {path : Bytes} {codec : Codec} (laws : WiredLaws sdk fs read_file path codec) where
  pub list_left :
      (w : W) → ((docker_host sdk fs read_file path).list_all w).0 ≡ (sdk.list_containers true w).0
  unfolding docker_host list_all
  list_left w = list_world sdk (codes "list all containers") (sdk.list_containers true w)

  pub wired_shows :
      (id : Bytes) (w : W) (c : InspectResult)
      → ((mgr laws).inspect id w).1 ≡ ok c
      → held laws c.name w ≡ some c
  unfolding docker_manager container_inspect inspect_result
  wired_shows id w c e =
      let (raw, shown, same) = inspect_tells sdk id (sdk.inspect_container id w) c e in
      let (n, named, there) = laws.docker.inspect_any id w raw shown in
      let name : c.name ≡ n = ap (λ i. i.name) same ∙ trim_slash n raw.name named in
      ap (λ m. held laws m w) name ∙ ap seen there ∙ ap some (sym same)

  pub calls-Kept :
      HostSteps (silent (docker_host sdk fs read_file path)) (Kept (laws.files.read path))
  unfolding docker_host
  calls-Kept =
      let read = laws.files.read path in
      record {
        same = λ w. inl refl;
        then_ = λ u v w. Kept-then read u v w;
        inspect = λ id w. inl (ap read (inspect_left laws id w) ∙ laws.inspect_read id w);
        stop = λ id w. inl (ap read (stop_left laws id w) ∙ laws.stop_read id none w);
        remove =
            λ id w. inl (ap read (remove_left laws id w) ∙ laws.remove_container_read id false w);
        create = λ spec w.
            inl (ap read (create_left laws spec w) ∙ laws.create_read (create_request spec) w);
        start = λ id w. inl (ap read (start_left laws id w) ∙ laws.start_read id w);
        remove_record = λ w. cleared-Kept _ _ _ (laws.remove_read w);
        list_all = λ w. inl (ap read (list_left w) ∙ laws.list_read true w);
        read_record = λ w. inl (laws.read_file_read w);
        write_record = λ text w. inl refl;
      }

  unfoldable pub wired_HostLaws : HostLaws (docker_host sdk fs read_file path) codec
  unfolding docker_host
  wired_HostLaws = record {
    holds = held laws;
    file = laws.files.read path;
    is_plain = laws.docker.is_plain;
    daemon = wired_Daemon laws;
    same_holds = λ p v w. refl;
    same_file = λ p v w. refl;
    list_holds = λ n w. ap (held laws n) (list_left w) ∙ ap seen (laws.docker.list_at n true w);
    list_file = λ w. ap (laws.files.read path) (list_left w) ∙ laws.list_read true w;
    show_holds = λ n id w.
        ap (held laws n) (inspect_left laws id w) ∙ ap seen (laws.docker.inspect_at n id w);
    show_file = λ id w. ap (laws.files.read path) (inspect_left laws id w) ∙ laws.inspect_read id w;
    show_tells = wired_shows;
    calls = calls-Kept;
    read_holds = λ n w. ap seen (laws.read_file_at n w);
    read_file = laws.read_file_read;
    read_tells = laws.read_file_tells;
    write_holds = λ n t w. ap seen (atomic_write_step laws.files_at path refl w t 0o600 n);
    write_file = λ t w.
        Ends-AfterWrite laws.files (laws.files.read path w) t (atomic_write fs path t 0o600 w)
          (atomic_write-Ends laws.files t 0o600 w);
    decode-encode = laws.decode-encode;
  }

  -- On the wired host, where every saved record can be finished, those of an engine whose name Docker
  -- may take for an id aside: whichever call of the SDK or of the file system fails,
  -- ensureGobackupContainer leaves the containers and the record as they were, or a valid record and
  -- a state from which a next run can finish the replacement, or the replacement under the engine's
  -- name and no record, or the record or none of an engine with such a name; and every saved record
  -- can be finished, those aside.
  pub ensure-docker_host :
      (json : Json) (cfg : Config) (extras : EngineExtras) (w : W)
      → IsConsistent wired_HostLaws w
      → let w' =
          (ensure_gobackup_container
            (docker_host sdk fs read_file path)
            codec
            json
            cfg
            extras
            w).0 in
        Leaves wired_HostLaws w w' × IsConsistent wired_HostLaws w'
  ensure-docker_host json cfg extras w c = ensure_lem wired_HostLaws json cfg extras w c
