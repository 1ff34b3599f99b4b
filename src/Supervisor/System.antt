-- ===== src/Supervisor/System.antt =====
-- cmd/gobackup-docker/main.go together with Run and reconcile of internal/pipeline/reconcile.go: the
-- loop, the passes that it runs and the host around them. What a pass does is done when it ends;
-- calls of fire, time and changes of the host may come before and after it in any order.
pub mod Refines
pub mod Settles
pub mod Safety
pub mod Served
use gobackup_docker.Base.{ℕ, Bool, true, false, some, List, [], ◌∷◌, ◌≡◌}
use gobackup_docker.Container.{Config}
use gobackup_docker.Pipeline.Discover.{Settings}
use gobackup_docker.Pipeline.Reconcile.{Reconciler, World, Pass, reconcile}
use gobackup_docker.Supervisor.Loop.{Loop, Event, succeeded, errored, initial, step}

pub record System (W : Type 0) : Type 0 where
  pub outside : W
  pub reconciler : Reconciler
  pub loop : Loop

-- the end of a pass, by its answer
abbrev pub outcome : Bool → Event
outcome true = succeeded
outcome false = errored

abbrev pub is_outcome : Event → Bool
is_outcome succeeded = true
is_outcome errored = true
is_outcome e = false

module _ {W : Type 0} (world : World W) (cfg : Settings) (spec : Config) where
  abbrev pub pass : System W → Pass world cfg spec
  pass s = reconcile world cfg spec s.outside s.reconciler

  module _ (debounce : ℕ) (Change : W → W → Type 0) where
    -- The runs from a host and a reconciler, with the events of the loop, the last one first: an event
    -- that ends no pass touches the loop alone, the end of a pass is the one that its answer gives,
    -- and `Change` says what else may happen on the host.
    pub data SystemRun (w : W) (r : Reconciler) : List Event → System W → Type 0 where
      begin : SystemRun w r [] (record { outside = w; reconciler = r; loop = initial })
      looped :
          {es : List Event} {s : System W} {l : Loop} (e : Event)
          → SystemRun w r es s
          → is_outcome e ≡ false
          → step debounce e s.loop ≡ some l
          → SystemRun w r (e ∷ es) (record s { loop = l })
      passed :
          {es : List Event} {s : System W} {l : Loop}
          → SystemRun w r es s
          → step debounce (outcome (pass s).2) s.loop ≡ some l
          → SystemRun w r
              (outcome (pass s).2 ∷ es)
              (record { outside = (pass s).0; reconciler = (pass s).1; loop = l })
      changed :
          {es : List Event} {s : System W} (w' : W)
          → SystemRun w r es s
          → Change s.outside w'
          → SystemRun w r es (record s { outside = w' })
