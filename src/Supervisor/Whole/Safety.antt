-- ===== src/Supervisor/Whole/Safety.antt =====
-- From the program's start on, the pending replacement can be finished.
use gobackup_docker.Pipeline.Manage.Wired.Replacing.{seen}
use gobackup_docker.Base.{
  inl, ◌≡◌, ap, ◌∙◌, ℕ, false, Option, none, some, List, [], Bytes, if-holds, is_empty, codes,
}
use gobackup_docker.Base.Dict.{Dict}
use gobackup_docker.Apply.{FileSystem, FileWriter}
use gobackup_docker.Pipeline.Docker.Client.{RawContainer}
use gobackup_docker.Pipeline.Docker.Calls.{
  DockerError, Answer, done, error, Sdk, new, pinged, client_made, daemon_name, container_inspect,
  answered_inspect,
}
use gobackup_docker.Pipeline.Manage.Ensure.{RecordRead}
use gobackup_docker.Pipeline.Manage.Ensure.Safety.{IsConsistent}
use gobackup_docker.Pipeline.Manage.Wired.Safety.{wired_HostLaws}
use gobackup_docker.Supervisor.{getenv}
use gobackup_docker.Supervisor.Loop.{Event}
use gobackup_docker.Supervisor.System.{System, SystemRun}
use gobackup_docker.Supervisor.System.Safety.{Spares, system-IsConsistent, Spares-IsConsistent}
use gobackup_docker.Supervisor.System.Refines.{last_failed, system-Run}
use mathlib.Core.Path.{subst}
use gobackup_docker.Supervisor.Start.{
  Started, Outcome, fatal, running, configured, named, connected, main, host_name, self_config,
}
use gobackup_docker.Supervisor.Start.First.{output_of, AfterMain, main_lem}
use gobackup_docker.Supervisor.Whole.{Parts, wired_world}
use gobackup_docker.Supervisor.Whole.Laws.{
  whole, is_apart, Untouched, WholeLaws, output-apart, whole_WorldLaws,
}

module _ {W : Type 0} {sdk : Sdk W} {fs : FileSystem W} {read_file : Bytes → W → W × RecordRead}
    {parts : Parts W} {output : Bytes} (laws : WholeLaws sdk fs read_file parts output)
    (start : W) where
  abbrev Kept : W → Type 0
  Kept w = Untouched laws.wired start w

  keep : (w w' : W) → Kept w → Untouched laws.wired w w' → Kept w'
  keep w w' k u = (λ n. u.0 n ∙ k.0 n, u.1 ∙ k.1)

  pinged-Kept : (a : W × Option DockerError) → Kept a.0 → Kept (pinged sdk a).0
  unfolding pinged
  pinged-Kept (w, none) k = k
  pinged-Kept (w, some e) k = keep w _ k (laws.close_leaves w)

  made-Kept : (a : W × Option DockerError) → Kept a.0 → Kept (client_made sdk a).0
  unfolding client_made
  made-Kept (w, none) k = pinged-Kept (sdk.ping w) (keep w _ k (laws.ping_leaves w))
  made-Kept (w, some e) k = k

  new-Kept : Kept (new sdk start).0
  unfolding new
  new-Kept = made-Kept (sdk.new_client start) (laws.make_leaves start)

  inspected-Kept :
      (id : Bytes) (a : W × Answer RawContainer) → Kept a.0 → Kept (answered_inspect sdk id a).0
  unfolding answered_inspect
  inspected-Kept id (w, done c) k = k
  inspected-Kept id (w, error e) k = k

  module _ (environ : Dict Bytes) (parse_duration : Bytes → Option ℕ)
      (hostname : Option Bytes) where
    self-Kept :
        (name : Option Bytes) (w : W)
        → Kept w
        → Kept (self_config environ parse_duration hostname sdk name w).0
    unfolding self_config container_inspect
    self-Kept none w k = k
    self-Kept (some id) w k =
        inspected-Kept id (sdk.inspect_container id w)
          (keep w _ k (λ n. laws.wired.docker.inspect_at n id w, laws.wired.inspect_read id w))

    host-Kept : (w : W) → Kept w → Kept (host_name environ parse_duration hostname sdk w).0
    unfolding host_name daemon_name
    host-Kept w k =
        if-holds (λ (a : W × Option Bytes). Kept a.0)
          (is_empty (getenv environ parse_duration (codes "GOBACKUP_DOCKER_HOST_ID"))) _ (w, none)
          (keep w _ k (laws.info_leaves w)) k

    connected-Kept :
        (a : W × Option DockerError)
        → Kept a.0
        → Kept (connected environ parse_duration hostname sdk a).0
    unfolding connected named configured
    connected-Kept (w, some e) k = k
    connected-Kept (w, none) k = self-Kept _ _ (host-Kept w k)

    pub main-Kept : Kept (main environ parse_duration hostname sdk start).0
    unfolding main
    main-Kept = connected-Kept (new sdk start) new-Kept

module _ {W : Type 0} {sdk : Sdk W} {fs : FileSystem W} {read_file : Bytes → W → W × RecordRead}
    {parts : Parts W} (environ : Dict Bytes) (parse_duration : Bytes → Option ℕ)
    (hostname : Option Bytes)
    (laws : WholeLaws sdk fs read_file parts (output_of environ parse_duration)) where
  abbrev IsSafe : W → Type 0
  IsSafe w = IsConsistent (wired_HostLaws laws.wired) w

  main-IsSafe : (w : W) → IsSafe w → IsSafe (main environ parse_duration hostname sdk w).0
  unfolding wired_HostLaws
  main-IsSafe w c =
      let kept = main-Kept laws w environ parse_duration hostname in
      Spares-IsConsistent (wired_HostLaws laws.wired) w _ c
        (kept.1, λ p s. inl (ap seen (kept.0 p.spec.name)))

  -- the runs of the system that main has started
  abbrev pub MainRun : W → Started → List Event → System W → Type 0
  MainRun w s =
      SystemRun (wired_world sdk fs read_file parts (output_of environ parse_duration))
        s.config.settings s.spec s.config.debounce (Spares (wired_HostLaws laws.wired)) w
        s.reconciler

  started-IsSafe :
      (w' : W) (s : Started) (es : List Event) (t : System W)
      → IsSafe w'
      → s.reconciler.writer ≡ record { path = output_of environ parse_duration; last = [] }
      → MainRun w' s es t
      → IsSafe t.outside
  unfolding whole_WorldLaws
  started-IsSafe w' s es t c e run =
      let output = output_of environ parse_duration in
      system-IsConsistent (whole_WorldLaws laws) s.config.settings s.spec s.config.debounce w'
        s.reconciler es t c
        (ap (λ (v : FileWriter). is_apart output v.path) e ∙ output-apart output) run

  abbrev Begins : Started → Type 0
  Begins s =
      (s.reconciler.writer ≡ record { path = output_of environ parse_duration; last = [] })
      × (s.reconciler.status.has_last_error ≡ false)

  main-Begins :
      (made : W × Option DockerError) (a : W × Outcome) (s : Started)
      → AfterMain sdk
          (whole laws)
          (Spares (wired_HostLaws laws.wired))
          environ
          parse_duration
          hostname
          made
          a
      → a.1 ≡ running s
      → Begins s
  main-Begins made (w, fatal e) s h r = cc
  main-Begins made (w, running s') s (e, run, status, writer, follows) r =
      let same : s' ≡ s = cc r in subst Begins same (writer, status)

  -- From any host on which every saved record can be finished, those of an engine whose name Docker
  -- may take for the id of a container aside: once main has started, whatever passes are run, whatever
  -- calls of the SDK and of the file system fail, and whatever else happens on the host in between, as
  -- long as it leaves the record alone, and alone or free the name of the engine in it, every saved
  -- record can be finished, those aside, and the status shows an error exactly where the last pass
  -- that ended did so with one.
  pub whole_lem :
      (w : W) (s : Started) (es : List Event) (t : System W)
      → IsConsistent (wired_HostLaws laws.wired) w
      → (main environ parse_duration hostname sdk w).1 ≡ running s
      → MainRun (main environ parse_duration hostname sdk w).0 s es t
      → IsConsistent (wired_HostLaws laws.wired) t.outside
        × (t.reconciler.status.has_last_error ≡ last_failed es)
  whole_lem w s es t c e run =
      let after =
        main_lem sdk (whole laws) (Spares (wired_HostLaws laws.wired)) environ parse_duration
          hostname w in
      let begins = main-Begins (new sdk w) (main environ parse_duration hostname sdk w) s after e in
      (
        started-IsSafe _ s es t (main-IsSafe w c) begins.0 run,
        (system-Run (whole laws) s.config.settings s.spec s.config.debounce
            (Spares (wired_HostLaws laws.wired)) _ s.reconciler es t begins.1 run).1,
      )
