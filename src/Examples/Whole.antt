-- ===== src/Examples/Whole.antt =====
-- The program started on a place with a record, and its first pass.
use gobackup_docker.Pipeline.Manage.{engine_spec}
use gobackup_docker.Pipeline.Manage.Replace.{resume_replacement, is_valid_pending}
use gobackup_docker.Labels.{parse_label, parse}
use gobackup_docker.Base.Dict.{Dict}
use gobackup_docker.Base.{
  ◌≡◌, refl, ◌∙◌, not, if-holds, ℕ, Bool, true, false, Option, none, some, List, [], ◌∷◌, Bytes,
  codes, str_eq,
}
use gobackup_docker.Container.{empty_config}
use gobackup_docker.Apply.{atomic_write}
use gobackup_docker.Apply.Steps.{Steps}
use gobackup_docker.Render.Model.{build_with_creds}
use gobackup_docker.Pipeline.Volumes.{dedup_mounts_by_target}
use gobackup_docker.Pipeline.Manage.Ensure.{ensure_gobackup_container}
use gobackup_docker.Pipeline.Manage.Ensure.Safety.{IsConsistent}
use gobackup_docker.Pipeline.Manage.Wired.Safety.{wired_HostLaws}
use gobackup_docker.Pipeline.Manage.Wired.{docker_host}
use gobackup_docker.Pipeline.Docker.Calls.{new, list}
use gobackup_docker.Pipeline.Reconcile.{Pass, World, reconcile, new_reconciler}
use gobackup_docker.Supervisor.{main_config}
use gobackup_docker.Supervisor.Loop.{started, Event, fired, taken, ticked, succeeded, off, step}
use gobackup_docker.Supervisor.System.{System, begin, looped, passed, pass}
use gobackup_docker.Supervisor.System.Refines.{last_failed}
use gobackup_docker.Supervisor.Start.{Started, launched, running, main}
use gobackup_docker.Supervisor.Start.First.{AfterMain, at_start, output_of, main_lem}
use gobackup_docker.Supervisor.Whole.{Parts, wired_world}
use gobackup_docker.Supervisor.Whole.Laws.{is_apart, WholeLaws}
use gobackup_docker.Supervisor.Whole.Safety.{MainRun, whole_lem}
use gobackup_docker.Examples.Ensure.{codec, plain_json}
use gobackup_docker.Examples.Place.{Place, temp, path, named_as, files, read_file, sdk}
use gobackup_docker.Examples.PlaceLaws.{wired_Laws, files_Laws, docker_Laws}
use gobackup_docker.Examples.Wired.{recorded, recorded-Resumable}

abbrev pub output : Bytes
output = codes "/etc/gobackup/gobackup.yml"

abbrev pub parts : Parts Place
parts = record {
  codec = codec;
  json = plain_json;
  engine = λ s d. some s;
  load_profiles = λ w. (w, some []);
  is_yaml = λ text. true;
  marshal = λ doc. some (codes "doc");
  now = λ w. 7;
}

abbrev SameRecord : Place → Place → Type 0
SameRecord v w = w.saved ≡ v.saved

not-true : (b : Bool) → not b ≡ true → b ≡ false
not-true true e = cc
not-true false e = refl

files_record : Steps files (is_apart output) SameRecord
unfolding str_eq
files_record = record {
  same = λ w. refl;
  then_ = λ u v w h k. k ∙ h;
  temp_apart = λ p q w. refl;
  create_temp = λ p q w. refl;
  write = λ t text w a.
      if-holds (λ (r : Place × Bool). SameRecord w r.0) (str_eq t temp)
        (record w { temporary = some text }, true) (w, false) refl refl;
  chmod = λ t mode w. refl;
  sync = λ t w. refl;
  close = λ t w. refl;
  rename = λ t p w a b.
      if-holds (λ (r : Place × Bool). SameRecord w r.0) (str_eq t temp) (named_as p w, true)
        (w, false) (rw (not-true (str_eq p path) b) refl) refl;
  remove = λ t w a.
      if-holds (λ (r : Place × Bool). SameRecord w r.0) (str_eq t temp)
        (record w { temporary = none }, true) _ refl (rw (not-true (str_eq t path) a) refl);
  open_dir = λ p w. refl;
  sync_dir = λ p w. refl;
  close_dir = λ p w. refl;
}

place_Laws : WholeLaws sdk files read_file parts output
unfolding wired_Laws files_Laws docker_Laws str_eq
place_Laws = record {
  wired = wired_Laws;
  files_read = files_record;
  load_leaves = λ w. (λ n. refl, refl);
  make_leaves = λ w. (λ n. refl, refl);
  ping_leaves = λ w. (λ n. refl, refl);
  close_leaves = λ w. (λ n. refl, refl);
  info_leaves = λ w. (λ n. refl, refl);
}

-- a debounce of one nanosecond
abbrev pub environ : Dict Bytes
environ = (codes "GOBACKUP_DOCKER_DEBOUNCE", codes "1ns") ∷ []

abbrev pub duration : Bytes → Option ℕ
duration t = some 1

pub laws : WholeLaws sdk files read_file parts (output_of environ duration)
unfolding main_config str_eq
laws = place_Laws

main_lem_example :
    AfterMain sdk
      (wired_world sdk files read_file parts output)
      SameRecord
      environ
      duration
      none
      (new sdk recorded)
      (main environ duration none sdk recorded)
main_lem_example =
    main_lem sdk (wired_world sdk files read_file parts output) SameRecord environ duration none
      recorded

abbrev pub begun : Started
begun = launched environ duration none (some (codes "host")) empty_config

abbrev world : World Place
world = wired_world sdk files read_file parts output

abbrev Runs : List Event → System Place → Type 0
Runs = MainRun environ duration none laws recorded begun

main_runs : main environ duration none sdk recorded ≡ (recorded, running begun)
unfolding main str_eq
main_runs = refl

abbrev in_pass : System Place
in_pass = record (at_start recorded begun) {
  loop = record { pending = false; timer = off; running = true };
}

abbrev events : List Event
events = started ∷ ticked ∷ taken ∷ fired ∷ []

in_pass-Runs : Runs events in_pass
unfolding step main_config str_eq launched
in_pass-Runs =
    looped started (looped ticked (looped taken (looped fired begin refl refl) refl refl) refl refl)
      refl refl

abbrev after : Pass world begun.config.settings begun.spec
after = pass world begun.config.settings begun.spec in_pass

-- the first pass has ended
abbrev after_pass : System Place
after_pass = record {
  outside = after.0;
  reconciler = after.1;
  loop = record { pending = false; timer = off; running = false };
}

after_pass-Runs : Runs (succeeded ∷ events) after_pass
unfolding step main_config str_eq reconcile ensure_gobackup_container docker_host list atomic_write
    launched new_reconciler dedup_mounts_by_target build_with_creds parse parse_label
    is_valid_pending engine_spec resume_replacement
after_pass-Runs = passed in_pass-Runs refl

pub with_record : IsConsistent (wired_HostLaws laws.wired) recorded
unfolding laws place_Laws wired_HostLaws wired_Laws files_Laws str_eq
with_record p s v pl = recorded-Resumable p s.reads

whole_lem_example :
    IsConsistent (wired_HostLaws laws.wired) after_pass.outside
    × (after_pass.reconciler.status.has_last_error ≡ last_failed (succeeded ∷ events))
unfolding main str_eq
whole_lem_example =
    whole_lem environ duration none laws recorded begun (succeeded ∷ events) after_pass with_record
      refl after_pass-Runs
