-- ===== src/Supervisor/Loop.antt =====
-- Run of internal/pipeline/reconcile.go with the trigger channel of cmd/gobackup-docker/main.go,
-- until the context is cancelled. A select that finds several of its cases ready may take any of
-- them: each case is an event, and a run is a sequence of events. Time is in nanoseconds.
pub mod Due
use gobackup_docker.Base.{
  ℕ, zero, suc, Bool, true, false, Option, none, some, List, [], ◌∷◌, ◌≡◌, if◌then◌else◌,
}

-- `armed n` expires after n more nanoseconds; at 0 its channel can be received from
pub data Timer : Type 0 where
  off : Timer
  armed : ℕ → Timer

-- `pending` is whether the trigger channel, of size 1, is full, `running` whether a pass is on
pub record Loop : Type 0 where
  pub pending : Bool
  pub timer : Timer
  pub running : Bool

-- A watcher calls fire, the loop takes the trigger, a nanosecond passes, the loop takes the timer's
-- expiry and starts a pass, the pass ends without error or with one.
pub data Event : Type 0 where
  fired taken ticked started succeeded errored : Event

-- the select of fire: a trigger that is pending already is enough
unfoldable pub fire : Bool → Bool
fire true = true
fire false = true

abbrev pub initial : Loop
initial = record { pending = false; timer = off; running = false }

abbrev pub retry_delay : ℕ
retry_delay = 5000000000

abbrev pub tick : Timer → Timer
tick off = off
tick (armed zero) = armed zero
tick (armed (suc n)) = armed n

abbrev pub has_expired : Timer → Bool
has_expired (armed zero) = true
has_expired _ = false

module _ (debounce : ℕ) where
  abbrev idle_step : Event → Loop → Option Loop
  idle_step taken l =
      if l.pending then some (record l { pending = false; timer = armed debounce }) else none
  idle_step started l =
      if has_expired l.timer then some (record l { timer = off; running = true }) else none
  idle_step _ l = none

  abbrev running_step : Event → Loop → Option Loop
  running_step succeeded l = some (record l { running = false })
  running_step errored l = some (record l { timer = armed retry_delay; running = false })
  running_step _ l = none

  -- the loop after an event, `none` where the event cannot happen
  unfoldable pub step : Event → Loop → Option Loop
  unfolding fire
  step fired l = some (record l { pending = fire l.pending })
  step ticked l = some (record l { timer = tick l.timer })
  step e l = if l.running then running_step e l else idle_step e l

  -- The runs from the start, the last event first.
  pub data Run : List Event → Loop → Type 0 where
    begin : Run [] initial
    next :
        {es : List Event} {l l' : Loop} (e : Event)
        → Run es l
        → step e l ≡ some l'
        → Run (e ∷ es) l'

-- Whether there is something that no pass has seen from its start and ended without error: a call
-- of fire, or a pass that failed.
unfoldable pub is_stale : List Event → Bool
is_stale [] = false
is_stale (fired ∷ es) = true
is_stale (errored ∷ es) = true
is_stale (started ∷ es) = false
is_stale (e ∷ es) = is_stale es
