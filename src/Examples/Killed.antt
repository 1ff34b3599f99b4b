-- ===== src/Examples/Killed.antt =====
-- The program killed in its first pass, after it has started.
use gobackup_docker.Pipeline.Manage.{engine_spec}
use gobackup_docker.Pipeline.Manage.Replace.{resume_replacement, is_valid_pending}
use gobackup_docker.Base.{none, List, [], ◌∷◌, refl, ◌≡◌, str_eq, true, false}
use gobackup_docker.Apply.{atomic_write}
use gobackup_docker.Pipeline.Manage.Ensure.{ensure_gobackup_container}
use gobackup_docker.Pipeline.Manage.Ensure.Safety.{IsConsistent}
use gobackup_docker.Pipeline.Manage.Wired.{docker_host}
use gobackup_docker.Pipeline.Manage.Wired.Safety.{wired_HostLaws}
use gobackup_docker.Pipeline.Manage.Killed.{Mortal, mortal_sdk, mortal_files, mortal_read}
use gobackup_docker.Pipeline.Docker.Calls.{list}
use gobackup_docker.Pipeline.Reconcile.{World, Pass, reconcile, new_reconciler}
use gobackup_docker.Render.Model.{build_with_creds}
use gobackup_docker.Pipeline.Volumes.{dedup_mounts_by_target}
use gobackup_docker.Supervisor.{main_config}
use gobackup_docker.Supervisor.Loop.{
  Event, fired, taken, ticked, started, errored, off, armed, retry_delay, step,
}
use gobackup_docker.Supervisor.System.{System, begin, looped, passed, pass}
use gobackup_docker.Supervisor.Start.{launched, running, main}
use gobackup_docker.Supervisor.Start.First.{at_start}
use gobackup_docker.Supervisor.Whole.{wired_world}
use gobackup_docker.Supervisor.Whole.Safety.{MainRun}
use gobackup_docker.Supervisor.Whole.Killed.{mortal_parts, mortal_WholeLaws, killed_lem}
use gobackup_docker.Examples.Place.{Place, files, read_file, sdk}
use gobackup_docker.Examples.Wired.{recorded}
use gobackup_docker.Examples.Whole.{environ, duration, output, parts, laws, with_record, begun}

-- New and the daemon's name take three calls, and the pass is cut off after two more
abbrev world : World (Mortal Place)
world =
    wired_world (mortal_sdk sdk) (mortal_files files) (mortal_read read_file) (mortal_parts parts)
      output

abbrev Runs : List Event → System (Mortal Place) → Type 0
Runs = MainRun environ duration none (mortal_WholeLaws laws) (recorded, 2) begun

main_runs_mortal :
    main environ duration none (mortal_sdk sdk) (recorded, 5) ≡ ((recorded, 2), running begun)
unfolding main str_eq
main_runs_mortal = refl

abbrev in_pass : System (Mortal Place)
in_pass = record (at_start (recorded, 2) begun) {
  loop = record { pending = false; timer = off; running = true };
}

abbrev events : List Event
events = started ∷ ticked ∷ taken ∷ fired ∷ []

in_pass-Runs : Runs events in_pass
unfolding step main_config str_eq launched
in_pass-Runs =
    looped started (looped ticked (looped taken (looped fired begin refl refl) refl refl) refl refl)
      refl refl

abbrev after : Pass world begun.config.settings begun.spec
after = pass world begun.config.settings begun.spec in_pass

abbrev after_pass : System (Mortal Place)
after_pass = record {
  outside = after.0;
  reconciler = after.1;
  loop = record { pending = false; timer = armed retry_delay; running = false };
}

after_pass-Runs : Runs (errored ∷ events) after_pass
unfolding step main_config str_eq reconcile ensure_gobackup_container docker_host list atomic_write
    launched new_reconciler dedup_mounts_by_target build_with_creds is_valid_pending engine_spec
    resume_replacement
after_pass-Runs = passed in_pass-Runs refl

killed_lem_example : IsConsistent (wired_HostLaws laws.wired) after_pass.outside.0
unfolding main str_eq
killed_lem_example =
    killed_lem environ duration none laws recorded 5 begun (errored ∷ events) after_pass with_record
      refl after_pass-Runs
