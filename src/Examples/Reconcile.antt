-- ===== src/Examples/Reconcile.antt =====
-- A pass over one container, with a disk that writes.
use gobackup_docker.Render.Model.{build_with_creds}
use gobackup_docker.Pipeline.Volumes.{dedup_mounts_by_target}
use gobackup_docker.Base.{◌∙◌, str_eq, ◌⊎◌, true, false, none, some, [], ◌∷◌, codes, refl, ◌≡◌}
use gobackup_docker.Tree.{str, obj, Fields, end, field}
use gobackup_docker.Container.{empty_config}
use gobackup_docker.Labels.{one_of}
use gobackup_docker.Apply.{FileSystem, atomic_write}
use gobackup_docker.Render.Escape.Config.Leaves.{FieldsEscaped}
use gobackup_docker.Pipeline.Docker.{Container}
use gobackup_docker.Pipeline.Discover.{Settings}
use gobackup_docker.Pipeline.Reconcile.{
  Reconciler, new_reconciler, World, moved, prepare, extras_of, reconcile,
}
use gobackup_docker.Pipeline.Reconcile.Dollar.{sentinel, extras_of-prepare}
use gobackup_docker.Pipeline.Reconcile.Pass.{AfterPass, reconcile_lem}
use gobackup_docker.Pipeline.Manage.Ensure.{ensure_gobackup_container}
use gobackup_docker.Apply.Steps.{Steps}
use gobackup_docker.Pipeline.Reconcile.Recovery.{Alike, WorldLaws}
use gobackup_docker.Examples.Ensure.{Disk, disk, codec, disk_Laws, plain_json, before}

abbrev document : Fields
document =
    field (codes "models")
      (obj (field (codes "shop") (obj (field (codes "password") (str (codes "a$b$")) end)) end)) end

extras_of_example :
    let p = (prepare (λ id (w : Disk). (w, none)) [] document before).1 in
    FieldsEscaped p.document
    × ((p.document ≡ (moved (λ id (w : Disk). (w, none)) [] document before).1)
        ⊎ (one_of sentinel (extras_of (λ id (w : Disk). (w, none)) p [] before).1.env_vars ≡ true))
extras_of_example = extras_of-prepare (λ id w. (w, none)) [] document [] before before

abbrev files : FileSystem Disk
files = record {
  create_temp = λ p q f. (f, some (codes "t"));
  write = λ t text f. (f, true);
  chmod = λ t mode f. (f, true);
  sync = λ t f. (f, true);
  close = λ t f. (f, true);
  rename = λ t p f. (f, true);
  remove = λ t f. (f, true);
  open_dir = λ p f. (f, true);
  sync_dir = λ p f. (f, true);
  close_dir = λ p f. (f, true);
}

abbrev client : Container
client = record {
  id = codes "c1";
  name = codes "app";
  labels =
      (codes "gobackup.enable", codes "true")
      ∷ (codes "gobackup.archive.includes", codes "/data")
      ∷ [];
}

abbrev pub world : World Disk
world = record {
  managed = true;
  host = disk;
  codec = codec;
  json = plain_json;
  engine = λ s d. some s;
  list = λ w. (w, some (client ∷ []));
  load_profiles = λ w. (w, some []);
  files = files;
  is_yaml = λ text. true;
  marshal = λ doc. some (codes "doc");
  now = λ w. 7;
}

abbrev pub settings : Settings
settings = record { instance_name = []; host_id = codes "host"; exposed_by_default = false }

unfoldable pub reconciler : Reconciler
unfolding new_reconciler
reconciler =
    new_reconciler settings (record { path = codes "/etc/gobackup/gobackup.yml"; last = [] })

reconcile_example :
    AfterPass world settings empty_config reconciler
      (reconcile world settings empty_config before reconciler)
reconcile_example = reconcile_lem world settings empty_config before reconciler

pub files-Alike : Steps files (λ t. true) (Alike world disk_Laws)
files-Alike = record {
  same = λ f. (λ n. refl, refl);
  then_ = λ f g h a b. (λ n. b.0 n ∙ a.0 n, b.1 ∙ a.1);
  temp_apart = λ p q f. refl;
  create_temp = λ p q f. (λ n. refl, refl);
  write = λ t text f a. (λ n. refl, refl);
  chmod = λ t mode f. (λ n. refl, refl);
  sync = λ t f. (λ n. refl, refl);
  close = λ t f. (λ n. refl, refl);
  rename = λ t p f a b. (λ n. refl, refl);
  remove = λ t f a. (λ n. refl, refl);
  open_dir = λ p f. (λ n. refl, refl);
  sync_dir = λ p f. (λ n. refl, refl);
  close_dir = λ p f. (λ n. refl, refl);
}

abbrev world_Laws : WorldLaws world
world_Laws = record {
  host_laws = disk_Laws;
  list_alike = λ w. (λ n. refl, refl);
  load_alike = λ w. (λ n. refl, refl);
  apart = λ t. true;
  files_alike = files-Alike;
}

-- a pass on a host without other containers ends without error and has written
abbrev pub empty_world : World Disk
empty_world = record world { list = λ w. (w, some []) }

reconcile_runs :
    let r = reconcile empty_world settings empty_config before reconciler in
    (r.2 ≡ true) × (r.1.writer.last ≡ codes "doc")
unfolding reconcile ensure_gobackup_container str_eq atomic_write reconciler dedup_mounts_by_target
    build_with_creds
reconcile_runs = (refl, refl)
