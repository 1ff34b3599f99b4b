-- ===== src/Examples/Supervisor.antt =====
-- Runs of the loop and of the watcher.
use gobackup_docker.Base.{str_eq, true, false, List, [], ◌∷◌, ◌++◌, codes, refl, ◌≡◌}
use gobackup_docker.Supervisor.Loop.{
  Loop, Event, fired, taken, ticked, started, errored, off, armed, Run, begin, next, step, is_stale,
}
use gobackup_docker.Supervisor.Loop.Due.{Follows, pass-Follows}
use gobackup_docker.Supervisor.Watch.{message, stream_error, cancelled, fire, watch_events, clean}
use gobackup_docker.Supervisor.Watch.Fires.{reactions, watch_events_lem}

-- a debounce of one nanosecond
abbrev events : List Event
events = fired ∷ started ∷ ticked ∷ taken ∷ fired ∷ []

abbrev loop : Loop
loop = record { pending = true; timer = off; running = true }

loop-Run : Run 1 events loop
unfolding step
loop-Run =
    next fired (next started (next ticked (next taken (next fired begin refl) refl) refl) refl) refl

-- the pass fails
abbrev failed_loop : Loop
failed_loop = record { pending = true; timer = armed 5000000000; running = false }

failed_loop-Run : Run 1 (errored ∷ events) failed_loop
unfolding step
failed_loop-Run = next errored loop-Run refl

pass-Follows_example : Follows 1 (errored ∷ events)
unfolding is_stale
pass-Follows_example = pass-Follows 1 (errored ∷ events) failed_loop failed_loop-Run refl refl

watch_events_example :
    (watch_events (message ∷ stream_error ∷ stream_error ∷ [])
      ≡ fire ∷ reactions (message ∷ stream_error ∷ stream_error ∷ []))
    × (watch_events ((message ∷ stream_error ∷ stream_error ∷ []) ++ cancelled ∷ message ∷ [])
        ≡ watch_events ((message ∷ stream_error ∷ stream_error ∷ []) ++ cancelled ∷ []))
watch_events_example =
    watch_events_lem (message ∷ stream_error ∷ stream_error ∷ []) (message ∷ [])
      (tt, (tt, (tt, tt)))

clean_runs :
    clean (codes "/etc//gobackup-docker/./x/../defaults.yml")
    ≡ codes "/etc/gobackup-docker/defaults.yml"
unfolding clean str_eq
clean_runs = refl
