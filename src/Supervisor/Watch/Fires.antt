-- ===== src/Supervisor/Watch/Fires.antt =====
-- When the watchers call fire.
use gobackup_docker.Base.{ℕ, List, [], ◌∷◌, ◌++◌, ◌≡◌, refl, ap, All}
use gobackup_docker.Supervisor.Watch.{
  Seen, message, stream_error, cancelled, Action, fire, wait, second, pump, watch_events,
}

-- what is done for a message, and for an error after which the stream is there again
abbrev pub reaction : Seen → List Action
reaction message = fire ∷ []
reaction stream_error = wait second ∷ fire ∷ []
reaction cancelled = []

abbrev pub reactions : List Seen → List Action
reactions [] = []
reactions (s ∷ seen) = reaction s ++ reactions seen

abbrev pub IsLive : Seen → Type 0
IsLive cancelled = ⊥
IsLive _ = Unit

pump_lem : (seen : List Seen) → All IsLive seen → pump second seen ≡ reactions seen
unfolding pump
pump_lem [] h = refl
pump_lem (message ∷ seen) h = ap (λ t. fire ∷ t) (pump_lem seen h.1)
pump_lem (cancelled ∷ seen) h = absurd h.0
pump_lem (stream_error ∷ []) h = refl
pump_lem (stream_error ∷ cancelled ∷ seen) h = absurd h.1.0
pump_lem (stream_error ∷ message ∷ seen) h =
    ap (λ t. wait second ∷ fire ∷ t) (pump_lem (message ∷ seen) h.1)
pump_lem (stream_error ∷ stream_error ∷ seen) h =
    ap (λ t. wait second ∷ fire ∷ t) (pump_lem (stream_error ∷ seen) h.1)

pump_ends :
    (b : ℕ) (seen rest : List Seen)
    → All IsLive seen
    → pump b (seen ++ cancelled ∷ rest) ≡ pump b (seen ++ cancelled ∷ [])
unfolding pump
pump_ends b [] rest h = refl
pump_ends b (message ∷ seen) rest h = ap (λ t. fire ∷ t) (pump_ends b seen rest h.1)
pump_ends b (cancelled ∷ seen) rest h = absurd h.0
pump_ends b (stream_error ∷ []) rest h = refl
pump_ends b (stream_error ∷ cancelled ∷ seen) rest h = absurd h.1.0
pump_ends b (stream_error ∷ message ∷ seen) rest h =
    ap (λ t. wait b ∷ fire ∷ t) (pump_ends second (message ∷ seen) rest h.1)
pump_ends b (stream_error ∷ stream_error ∷ seen) rest h =
    ap (λ t. wait b ∷ fire ∷ t) (pump_ends second (stream_error ∷ seen) rest h.1)

-- As long as the context lives the watcher calls fire when it starts, for each message, and once
-- more after each error of the stream, for which it waits a second, however many came before. What
-- comes after the end of the context changes nothing.
pub watch_events_lem :
    (seen rest : List Seen)
    → All IsLive seen
    → (watch_events seen ≡ fire ∷ reactions seen)
      × (watch_events (seen ++ cancelled ∷ rest) ≡ watch_events (seen ++ cancelled ∷ []))
unfolding watch_events
watch_events_lem [] rest h = (ap (λ t. fire ∷ t) (pump_lem [] h), refl)
watch_events_lem (cancelled ∷ seen) rest h = absurd h.0
watch_events_lem (message ∷ seen) rest h = (
  ap (λ t. fire ∷ t) (pump_lem (message ∷ seen) h),
  ap (λ t. fire ∷ t) (pump_ends second (message ∷ seen) rest h),
)
watch_events_lem (stream_error ∷ seen) rest h = (
  ap (λ t. fire ∷ t) (pump_lem (stream_error ∷ seen) h),
  ap (λ t. fire ∷ t) (pump_ends second (stream_error ∷ seen) rest h),
)
