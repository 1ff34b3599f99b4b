-- ===== src/Supervisor/System/Refines.antt =====
-- The system is the loop with passes that answer, and its status tells how the last one ended.
use gobackup_docker.Base.{sym, ℕ, Bool, true, false, not, List, [], ◌∷◌, ◌≡◌, ◌∙◌, refl, sym}
use gobackup_docker.Container.{Config}
use gobackup_docker.Pipeline.Discover.{Settings}
use gobackup_docker.Pipeline.Reconcile.{Reconciler, World}
use gobackup_docker.Pipeline.Reconcile.Pass.{reconcile_lem}
use gobackup_docker.Supervisor.Loop.{
  Event, fired, taken, ticked, started, succeeded, errored, Run, next,
}
use gobackup_docker.Supervisor.System.{
  System, outcome, is_outcome, SystemRun, begin, looped, passed, changed, pass,
}

-- whether the last pass that ended did so with an error
abbrev pub last_failed : List Event → Bool
last_failed [] = false
last_failed (succeeded ∷ es) = false
last_failed (errored ∷ es) = true
last_failed (e ∷ es) = last_failed es

last_failed-outcome : (b : Bool) (es : List Event) → last_failed (outcome b ∷ es) ≡ not b
last_failed-outcome true es = refl
last_failed-outcome false es = refl

last_failed-looped :
    (e : Event) (es : List Event) → is_outcome e ≡ false → last_failed (e ∷ es) ≡ last_failed es
last_failed-looped fired es h = refl
last_failed-looped taken es h = refl
last_failed-looped ticked es h = refl
last_failed-looped started es h = refl
last_failed-looped succeeded es h = cc
last_failed-looped errored es h = cc

module _ {W : Type 0} (world : World W) (cfg : Settings) (spec : Config) (debounce : ℕ)
    (Change : W → W → Type 0) where
  -- what the loop of a system sees is a run of the loop
  pub SystemRun-Run :
      (w : W) (r : Reconciler) (es : List Event) (s : System W)
      → SystemRun world cfg spec debounce Change w r es s
      → Run debounce es s.loop
  SystemRun-Run w r es s begin = Run.begin
  SystemRun-Run w r es s (looped e run n k) = next e (SystemRun-Run w r _ _ run) k
  SystemRun-Run w r es s (passed {s = t} run k) =
      next (outcome (pass world cfg spec t).2) (SystemRun-Run w r _ _ run) k
  SystemRun-Run w r es s (changed w' run c) = SystemRun-Run w r _ _ run

  status_lem :
      (w : W) (r : Reconciler) (es : List Event) (s : System W)
      → r.status.has_last_error ≡ false
      → SystemRun world cfg spec debounce Change w r es s
      → s.reconciler.status.has_last_error ≡ last_failed es
  status_lem w r es s h begin = h
  status_lem w r es s h (looped e run n k) =
      status_lem w r _ _ h run ∙ sym (last_failed-looped e _ n)
  status_lem w r es s h (passed {s = t} run k) =
      (reconcile_lem world cfg spec t.outside t.reconciler).0
      ∙ sym (last_failed-outcome (pass world cfg spec t).2 _)
  status_lem w r es s h (changed w' run c) = status_lem w r _ _ h run

  -- The events of a system whose status shows no error at first are a run of the loop, to the loop
  -- of the system, and the status shows an error exactly where the last pass that ended did so with
  -- one.
  pub system-Run :
      (w : W) (r : Reconciler) (es : List Event) (s : System W)
      → r.status.has_last_error ≡ false
      → SystemRun world cfg spec debounce Change w r es s
      → Run debounce es s.loop × (s.reconciler.status.has_last_error ≡ last_failed es)
  system-Run w r es s h run = (SystemRun-Run w r es s run, status_lem w r es s h run)
