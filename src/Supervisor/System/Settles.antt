-- ===== src/Supervisor/System/Settles.antt =====
-- What becomes of a call of fire in the whole system.
use gobackup_docker.Base.{
  ◌≡◌, refl, ap, ◌∙◌, ◌⊎◌, inl, inr, ◌+◌, ◌≤◌, ℕ, zero, suc, arith, Bool, true, false, not, some,
  none, List, ◌∷◌, Bool-cases, if◌then◌else◌,
}
use mathlib.Core.Path.{subst}
use gobackup_docker.Container.{Config}
use gobackup_docker.Pipeline.Discover.{Settings}
use gobackup_docker.Pipeline.Reconcile.{Reconciler, World}
use gobackup_docker.Supervisor.Loop.{
  Timer, off, armed, Loop, Event, taken, ticked, started, retry_delay, step, is_stale,
}
use gobackup_docker.Supervisor.Loop.Due.{is_on, IsBounded, Run-Kept, stale_is_due, later}
use gobackup_docker.Supervisor.System.{System, SystemRun, looped, passed, outcome, pass}
use gobackup_docker.Supervisor.System.Refines.{SystemRun-Run}

abbrev with_timer : {W : Type 0} → System W → Timer → System W
with_timer s t = record s { loop = record s.loop { timer = t } }

module _ {W : Type 0} (world : World W) (cfg : Settings) (spec : Config) (debounce : ℕ)
    (Change : W → W → Type 0) (w : W) (r : Reconciler) where
  abbrev Goes : List Event → System W → Type 0
  Goes es s = SystemRun world cfg spec debounce Change w r es s

  Goes-later :
      (n m : ℕ) (es : List Event) (s : System W)
      → Goes es s
      → s.loop.timer ≡ armed (n + m)
      → Goes (later debounce n es) (with_timer s (armed m))
  unfolding step
  Goes-later zero m es s g h = subst (λ t. Goes es (with_timer s t)) (h ∙ ap armed (omega arith)) g
  Goes-later (suc n) m es s g h =
      looped ticked (Goes-later n (suc m) es s g (h ∙ ap armed (omega arith))) refl refl

  -- the loop in a pass
  abbrev busy : Loop → Loop
  busy l = record l { timer = off; running = true }

  Goes-started :
      (n : ℕ) (es : List Event) (s : System W)
      → Goes es s
      → s.loop.running ≡ false
      → s.loop.timer ≡ armed n
      → Goes (started ∷ later debounce n es) (record s { loop = busy s.loop })
  unfolding step
  Goes-started n es s g idle h =
      looped started (Goes-later n zero es s g (h ∙ ap armed (omega arith))) refl
        (ap (λ b. if b then none else some (busy s.loop)) idle)

  Goes-taken :
      (es : List Event) (s : System W)
      → Goes es s
      → s.loop.running ≡ false
      → s.loop.pending ≡ true
      → Goes
          (taken ∷ es)
          (record s { loop = record s.loop { pending = false; timer = armed debounce } })
  unfolding step
  Goes-taken es s g idle full =
      let l' : Loop = record s.loop { pending = false; timer = armed debounce } in
      looped taken g refl (
        ap (λ b. if b then none else if s.loop.pending then some l' else none) idle
        ∙ ap (λ b. if b then some l' else none) full)

  -- the loop after a pass
  abbrev ended : Bool → Loop → Loop
  ended true l = record l { running = false }
  ended false l = record l { timer = armed retry_delay; running = false }

  step-ended : (b : Bool) (l : Loop) → step debounce (outcome b) (busy l) ≡ some (ended b (busy l))
  unfolding step
  step-ended true l = refl
  step-ended false l = refl

  ended_idle : (b : Bool) (l : Loop) → (ended b l).running ≡ false
  ended_idle true l = refl
  ended_idle false l = refl

  stale_outcome : (b : Bool) (es : List Event) → is_stale (outcome b ∷ started ∷ es) ≡ not b
  unfolding is_stale
  stale_outcome true es = refl
  stale_outcome false es = refl

  abbrev settled : System W → Loop → System W
  settled s l = record {
    outside = (pass world cfg spec s).0;
    reconciler = (pass world cfg spec s).1;
    loop = l;
  }

  -- The pass that the system now makes, after some nanoseconds, perhaps with the trigger taken first.
  pub record Settles (es : List Event) (s : System W) : Type 0 where
    pub wait : ℕ
    pub before : List Event
    pub loop : Loop
    pub no_fire : (before ≡ es) ⊎ (before ≡ taken ∷ es)
    pub is_soon : (wait ≤ debounce) ⊎ (wait ≤ retry_delay)
    pub idle : loop.running ≡ false
    pub goes :
        Goes
          (outcome (pass world cfg spec s).2 ∷ started ∷ later debounce wait before)
          (settled s loop)
    pub decides :
        is_stale (outcome (pass world cfg spec s).2 ∷ started ∷ later debounce wait before)
        ≡ not (pass world cfg spec s).2

  pass-Settles :
      (n : ℕ) (before es : List Event) (s : System W) (l : Loop)
      → (before ≡ es) ⊎ (before ≡ taken ∷ es)
      → (n ≤ debounce) ⊎ (n ≤ retry_delay)
      → Goes (started ∷ later debounce n before) (record s { loop = busy l })
      → Settles es s
  pass-Settles n before es s l b q g =
      let answer = (pass world cfg spec s).2 in
      record {
        wait = n;
        before = before;
        loop = ended answer (busy l);
        no_fire = b;
        is_soon = q;
        idle = ended_idle answer (busy l);
        decides = stale_outcome answer (later debounce n before);
        goes = passed g (step-ended answer l);
      }

  timer-Settles :
      (es : List Event) (s : System W) (t : Timer)
      → Goes es s
      → s.loop.running ≡ false
      → s.loop.timer ≡ t
      → is_on t ≡ true
      → IsBounded debounce t
      → Settles es s
  timer-Settles es s off g idle e h b = cc
  timer-Settles es s (armed n) g idle e h b =
      pass-Settles n es es s s.loop (inl refl) b (Goes-started n es s g idle e)

  -- In every run of a system in which no pass is on and a call of fire has not been seen by a pass that
  -- started after it and ended without error, or the last pass ended with an error: it goes on with
  -- a pass over the host as it is, to the end of that pass, without a further call of fire, after
  -- the debounce or the delay of a retry at most. Then nothing is left for a pass to see if the
  -- pass answers no error, and something is if it answers one.
  pub system-Settles :
      (es : List Event) (s : System W)
      → SystemRun world cfg spec debounce Change w r es s
      → is_stale es ≡ true
      → s.loop.running ≡ false
      → Settles es s
  system-Settles es s g stale idle =
      let run = SystemRun-Run world cfg spec debounce Change w r es s g in
      elim (Bool-cases s.loop.pending) [
        | inl full ↦
            let t = Goes-taken es s g idle full in
            pass-Settles debounce (taken ∷ es) es s
              (record s.loop { pending = false; timer = armed debounce }) (inr refl)
              (inl (omega arith)) (Goes-started debounce (taken ∷ es) _ t idle refl)
        | inr n ↦
            timer-Settles es s s.loop.timer g idle refl
              (ground (arith, stale_is_due debounce run stale, n)) (Run-Kept debounce run).bounded
      ]
