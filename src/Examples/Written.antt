-- ===== src/Examples/Written.antt =====
-- A pass that writes the config, on a host without an engine.
use gobackup_docker.Base.{true, false, some, [], codes, refl, ◌∙◌, inr, ◌≡◌, str_eq}
use gobackup_docker.Container.{empty_config}
use gobackup_docker.Apply.{atomic_write}
use gobackup_docker.Render.Model.{build_with_creds}
use gobackup_docker.Pipeline.Volumes.{dedup_mounts_by_target}
use gobackup_docker.Pipeline.Manage.Replace.{not_found, failed, ok}
use gobackup_docker.Pipeline.Manage.Ensure.{Host, missing, ensure_gobackup_container}
use gobackup_docker.Pipeline.Reconcile.{Reconciler, World, new_reconciler, reconcile}
use gobackup_docker.Pipeline.Reconcile.Written.{ConfigLaws, AfterBoth, reconcile_writes}
use gobackup_docker.Examples.Apply.{Files, config, files, files_Laws, old_files, any_yaml}
use gobackup_docker.Examples.Ensure.{codec, plain_json}
use gobackup_docker.Examples.Reconcile.{settings}

-- without containers or a record, and nothing can be created
abbrev host : Host Files
host = record {
  manager = record {
    inspect = λ id f. (f, failed not_found);
    stop = λ id f. (f, some not_found);
    remove = λ id f. (f, some not_found);
    create = λ spec f. (f, failed not_found);
    start = λ id f. (f, some not_found);
    remove_record = λ f. (f, false);
  };
  list_all = λ f. (f, ok []);
  read_record = λ f. (f, missing);
  write_record = λ text f. (f, false);
}

abbrev world : World Files
world = record {
  managed = true;
  host = host;
  codec = codec;
  json = plain_json;
  engine = λ s d. some s;
  list = λ f. (f, some []);
  load_profiles = λ f. (f, some []);
  files = files true;
  is_yaml = any_yaml;
  marshal = λ doc. some (codes "doc");
  now = λ f. 7;
}

world-ConfigLaws : ConfigLaws world config
unfolding files_Laws
world-ConfigLaws = record {
  files = files_Laws true;
  host_steps = record {
    same = λ f. refl;
    then_ = λ f g h a b. b ∙ a;
    inspect = λ id f. refl;
    stop = λ id f. refl;
    remove = λ id f. refl;
    create = λ spec f. refl;
    start = λ id f. refl;
    remove_record = λ f. refl;
    list_all = λ f. refl;
    read_record = λ f. refl;
    write_record = λ text f. refl;
  };
  list_same = λ f. refl;
  load_same = λ f. refl;
}

abbrev reconciler : Reconciler
reconciler = record (new_reconciler settings (record { path = config; last = codes "old" })) {
  writer = record { path = config; last = codes "old" };
}

reconcile_writes_example :
    AfterBoth world-ConfigLaws settings empty_config reconciler
      (reconcile world settings empty_config old_files reconciler)
unfolding world-ConfigLaws files_Laws str_eq
reconcile_writes_example =
    reconcile_writes world-ConfigLaws settings empty_config reconciler old_files (refl, inr refl)

reconcile_runs_writing :
    let p = reconcile world settings empty_config old_files reconciler in
    (p.0.1 ≡ some (codes "doc")) × (p.2 ≡ true)
unfolding reconcile ensure_gobackup_container str_eq atomic_write dedup_mounts_by_target
    build_with_creds new_reconciler
reconcile_runs_writing = (refl, refl)
