-- ===== src/Supervisor/Start/First.antt =====
-- What main leads to.
use gobackup_docker.Base.{ℕ, false, Option, none, some, [], ◌∷◌, Bytes, codes, ◌≡◌, refl}
use gobackup_docker.Base.Dict.{Dict, get}
use gobackup_docker.Container.{Config}
use gobackup_docker.Pipeline.Reconcile.{World, new_reconciler}
use gobackup_docker.Pipeline.Docker.Calls.{DockerError, Sdk, new}
use gobackup_docker.Supervisor.{main_config}
use gobackup_docker.Supervisor.Loop.{fired, begin, next, step, is_stale}
use gobackup_docker.Supervisor.Loop.Due.{Follows, pass-Follows}
use gobackup_docker.Supervisor.System.{System, SystemRun, looped}
use gobackup_docker.Supervisor.Start.{
  Started, Outcome, fatal, running, launched, configured, named, connected, main, host_name,
  self_config, self_name,
}

-- the system as it is when the loop begins
abbrev pub at_start : {W : Type 0} → W → Started → System W
at_start w s = record { outside = w; reconciler = s.reconciler; loop = s.loop }

-- where the environment has the config written: the value of GOBACKUP_DOCKER_OUTPUT, which has a
-- default
abbrev pub output_of : Dict Bytes → (Bytes → Option ℕ) → Bytes
output_of environ parse_duration = elim (get (codes "GOBACKUP_DOCKER_OUTPUT") environ) [
  | none ↦ codes "/etc/gobackup/gobackup.yml"
  | some t ↦ t
]

module _ {W : Type 0} (sdk : Sdk W) (world : World W) (Change : W → W → Type 0)
    (environ : Dict Bytes) (parse_duration : Bytes → Option ℕ) (hostname : Option Bytes) where
  -- The program ends only with an error of New. Otherwise the system is that of a run with one call
  -- of fire, with no error in its status, to write the config where it belongs and nothing written
  -- yet, and a pass follows without any other event.
  abbrev pub AfterMain : W × Option DockerError → W × Outcome → Type 0
  AfterMain made (w, fatal e) = made ≡ (w, some e)
  AfterMain made (w, running s) =
      (made.1 ≡ none)
      × SystemRun world s.config.settings s.spec s.config.debounce Change w s.reconciler
          (fired ∷ []) (at_start w s)
      × (s.reconciler.status.has_last_error ≡ false)
      × (s.reconciler.writer ≡ record { path = output_of environ parse_duration; last = [] })
      × Follows s.config.debounce (fired ∷ [])

  configured-AfterMain :
      (made : W × Option DockerError) (host : Option Bytes) (ws : W × Config)
      → made.1 ≡ none
      → AfterMain made (configured environ parse_duration hostname sdk host ws)
  unfolding configured launched new_reconciler step is_stale main_config get
  configured-AfterMain made host (w, spec) e = (
    e,
    looped fired SystemRun.begin refl refl,
    refl,
    refl,
    pass-Follows _ (fired ∷ []) _ (next fired begin refl) refl refl,
  )

  connected-AfterMain :
      (made : W × Option DockerError)
      → AfterMain made (connected environ parse_duration hostname sdk made)
  unfolding connected named
  connected-AfterMain (w, some e) = refl
  connected-AfterMain (w, none) =
      let host = host_name environ parse_duration hostname sdk w in
      let name = self_name environ parse_duration hostname in
      configured-AfterMain (w, none) host.1
        (self_config environ parse_duration hostname sdk name host.0) refl

  -- main ends the program only with the error of New, and leaves what New left. Otherwise the loop
  -- begins in a system that a run with a single call of fire leads to, whose status shows no error and
  -- whose writer has written nothing and is one of the file that GOBACKUP_DOCKER_OUTPUT names, of the
  -- default where it is not set, and a first pass follows without any further event, after the
  -- debounce or the delay of a retry at most.
  pub main_lem : (w : W) → AfterMain (new sdk w) (main environ parse_duration hostname sdk w)
  unfolding main
  main_lem w = connected-AfterMain (new sdk w)
