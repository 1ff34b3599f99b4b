-- ===== src/Examples/System.antt =====
-- The system from its start to the end of its first pass, and a change of the host after it.
use gobackup_docker.Supervisor.System.Settles.{system-Settles, Settles}
use gobackup_docker.Base.{inr, sym, ◌∙◌, str_eq, true, false, none, List, [], ◌∷◌, ◌≡◌, refl}
use gobackup_docker.Container.{empty_config}
use gobackup_docker.Apply.{atomic_write}
use gobackup_docker.Render.Model.{build_with_creds}
use gobackup_docker.Pipeline.Volumes.{dedup_mounts_by_target}
use gobackup_docker.Pipeline.Manage.Ensure.{ensure_gobackup_container}
use gobackup_docker.Pipeline.Reconcile.{reconcile}
use gobackup_docker.Pipeline.Reconcile.Recovery.{WorldLaws}
use gobackup_docker.Supervisor.Loop.{
  is_stale, Event, fired, taken, ticked, started, succeeded, off, Run, step,
}
use gobackup_docker.Supervisor.System.{System, SystemRun, begin, looped, passed, changed, pass}
use gobackup_docker.Supervisor.System.Refines.{last_failed, system-Run}
use gobackup_docker.Supervisor.System.Safety.{Spares}
use gobackup_docker.Examples.Ensure.{holds-removed, disk_file, Disk, disk_Laws, before}
use gobackup_docker.Examples.Reconcile.{empty_world, settings, reconciler, files-Alike}

abbrev empty_world_Laws : WorldLaws empty_world
empty_world_Laws = record {
  host_laws = disk_Laws;
  list_alike = λ w. (λ n. refl, refl);
  load_alike = λ w. (λ n. refl, refl);
  apart = λ t. true;
  files_alike = files-Alike;
}

abbrev Runs : List Event → System Disk → Type 0
Runs = SystemRun empty_world settings empty_config 1 (Spares disk_Laws) before reconciler

abbrev in_pass : System Disk
in_pass = record {
  outside = before;
  reconciler = reconciler;
  loop = record { pending = false; timer = off; running = true };
}

abbrev events : List Event
events = started ∷ ticked ∷ taken ∷ fired ∷ []

in_pass-Runs : Runs events in_pass
unfolding step
in_pass-Runs =
    looped started (looped ticked (looped taken (looped fired begin refl refl) refl refl) refl refl)
      refl refl

-- after the pass, with the engine removed by hand
abbrev after_pass : System Disk
after_pass = record {
  outside = (none, none);
  reconciler = (pass empty_world settings empty_config in_pass).1;
  loop = record { pending = false; timer = off; running = false };
}

removed-Spares : Spares disk_Laws before (none, none)
removed-Spares =
    (disk_file (none, none) ∙ sym (disk_file before), λ p s. inr (holds-removed p.spec.name none))

after_pass-Runs : Runs (succeeded ∷ events) after_pass
unfolding step reconcile ensure_gobackup_container str_eq atomic_write reconciler
    dedup_mounts_by_target build_with_creds
after_pass-Runs = changed (none, none) (passed in_pass-Runs refl) removed-Spares

system-Run_example :
    Run 1 (succeeded ∷ events) after_pass.loop
    × (after_pass.reconciler.status.has_last_error ≡ last_failed (succeeded ∷ events))
unfolding reconciler
system-Run_example =
    system-Run empty_world settings empty_config 1 (Spares disk_Laws) before reconciler
      (succeeded ∷ events) after_pass refl after_pass-Runs

-- the host was looked at, and fire is called again
abbrev fired_again : System Disk
fired_again = record after_pass { loop = record { pending = true; timer = off; running = false } }

fired_again-Runs : Runs (fired ∷ succeeded ∷ events) fired_again
unfolding step
fired_again-Runs = looped fired after_pass-Runs refl refl

system-Settles_example :
    Settles empty_world settings empty_config 1
      (Spares disk_Laws)
      before
      reconciler
      (fired ∷ succeeded ∷ events)
      fired_again
unfolding is_stale
system-Settles_example =
    system-Settles empty_world settings empty_config 1 (Spares disk_Laws) before reconciler
      (fired ∷ succeeded ∷ events) fired_again fired_again-Runs refl refl
