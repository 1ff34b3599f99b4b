-- ===== src/Supervisor/Loop/Due.antt =====
-- What becomes of a call of fire.
use mathlib.Core.Path.{subst}
use gobackup_docker.Base.{
  ◌+◌, if◌then◌else◌, ◌∙◌, if-holds, ℕ, zero, suc, ◌≤◌, Bool, true, false, ◌||◌, Option, none, some,
  List, ◌∷◌, ◌≡◌, ◌⊎◌, inl, inr, refl, ap, arith, Bool-cases,
}
use gobackup_docker.Supervisor.Loop.{
  Timer, off, armed, Loop, Event, fired, taken, ticked, started, succeeded, errored, retry_delay,
  tick, has_expired, step, fire, Run, begin, next, is_stale,
}

abbrev pub is_on : Timer → Bool
is_on off = false
is_on (armed n) = true

-- a pass will start without a further call of fire
abbrev pub is_due : Loop → Bool
is_due l = l.pending || is_on l.timer

abbrev pub IsBounded : ℕ → Timer → Type 0
IsBounded debounce off = Unit
IsBounded debounce (armed n) = (n ≤ debounce) ⊎ (n ≤ retry_delay)

-- what is kept by every event
pub record Kept (debounce : ℕ) (es : List Event) (l : Loop) : Type 0 where
  pub due : (is_stale es ≡ false) ⊎ (is_due l ≡ true)
  pub bounded : IsBounded debounce l.timer

is_on-tick : (t : Timer) → is_on (tick t) ≡ is_on t
is_on-tick off = refl
is_on-tick (armed zero) = refl
is_on-tick (armed (suc n)) = refl

module _ (debounce : ℕ) where
  tick-IsBounded : (t : Timer) → IsBounded debounce t → IsBounded debounce (tick t)
  tick-IsBounded off h = tt
  tick-IsBounded (armed zero) h = h
  tick-IsBounded (armed (suc n)) (inl h) = inl (omega arith)
  tick-IsBounded (armed (suc n)) (inr h) = inr (omega arith)

  abbrev KeptAfter : List Event → Option Loop → Type 0
  KeptAfter es none = Unit
  KeptAfter es (some l) = Kept debounce es l

  step-Kept :
      (e : Event) (es : List Event) (l : Loop)
      → Kept debounce es l
      → KeptAfter (e ∷ es) (step debounce e l)
  unfolding step fire is_stale
  step-Kept fired es l k = record { due = inr (ground (arith)); bounded = k.bounded }
  step-Kept ticked es l k = record {
    due = elim k.due [ inl n ↦ inl n | inr y ↦ inr (rw (is_on-tick l.timer) y) ];
    bounded = tick-IsBounded l.timer k.bounded;
  }
  step-Kept taken es l k = if-holds (KeptAfter (taken ∷ es)) l.running none _ tt (
      if-holds (KeptAfter (taken ∷ es)) l.pending
        (some (record l { pending = false; timer = armed debounce })) none
        (record { due = inr refl; bounded = inl (omega arith) }) tt)
  step-Kept started es l k = if-holds (KeptAfter (started ∷ es)) l.running none _ tt (
      if-holds (KeptAfter (started ∷ es)) (has_expired l.timer)
        (some (record l { timer = off; running = true })) none
        (record { due = inl refl; bounded = tt }) tt)
  step-Kept succeeded es l k =
      if-holds (KeptAfter (succeeded ∷ es)) l.running (some (record l { running = false })) none
        (record { due = k.due; bounded = k.bounded }) tt
  step-Kept errored es l k =
      if-holds (KeptAfter (errored ∷ es)) l.running
        (some (record l { timer = armed retry_delay; running = false })) none
        (record { due = inr (ground arith); bounded = inr (omega arith) }) tt

  pub Run-Kept : {es : List Event} {l : Loop} → Run debounce es l → Kept debounce es l
  unfolding is_stale
  Run-Kept begin = record { due = inl refl; bounded = tt }
  Run-Kept (next {es} {l} {l'} e r h) = subst (KeptAfter (e ∷ es)) h (step-Kept e es l (Run-Kept r))

  -- In every run, as long as a call of fire has not been seen by a pass that started after it and
  -- ended without error, or the last pass ended with an error, the trigger is pending or the timer
  -- is on.
  pub stale_is_due :
      {es : List Event} {l : Loop} → Run debounce es l → is_stale es ≡ true → is_due l ≡ true
  stale_is_due r h = elim ((Run-Kept r).due) [ inl n ↦ cc | inr y ↦ y ]

  -- n nanoseconds pass
  abbrev pub later : ℕ → List Event → List Event
  later zero es = es
  later (suc n) es = ticked ∷ later n es

  Run-later :
      (n m : ℕ) (es : List Event) (l : Loop)
      → Run debounce es l
      → l.timer ≡ armed (n + m)
      → Run debounce (later n es) (record l { timer = armed m })
  unfolding step
  Run-later zero m es l r h =
      subst (λ t. Run debounce es (record l { timer = t })) (h ∙ ap armed (omega arith)) r
  Run-later (suc n) m es l r h =
      next ticked (Run-later n (suc m) es l r (h ∙ ap armed (omega arith))) refl

  -- from a loop with no pass on whose timer is on
  Run-started :
      (n : ℕ) (es : List Event) (l : Loop)
      → Run debounce es l
      → l.running ≡ false
      → l.timer ≡ armed n
      → Run debounce (started ∷ later n es) (record l { timer = off; running = true })
  unfolding step
  Run-started n es l r idle h =
      next started (Run-later n zero es l r (h ∙ ap armed (omega arith)))
        (ap (λ b. if b then none else some (record l { timer = off; running = true })) idle)

  Run-taken :
      (es : List Event) (l : Loop)
      → Run debounce es l
      → l.running ≡ false
      → l.pending ≡ true
      → Run debounce (taken ∷ es) (record l { pending = false; timer = armed debounce })
  unfolding step
  Run-taken es l r idle full =
      let l' : Loop = record l { pending = false; timer = armed debounce } in
      next taken r (
        ap (λ b. if b then none else if l.pending then some l' else none) idle
        ∙ ap (λ b. if b then some l' else none) full)

  -- A pass can start after some nanoseconds, no more than the debounce or the delay of a retry.
  abbrev pub Follows : List Event → Type 0
  Follows es =
      (n : ℕ) × (l : Loop) × ((n ≤ debounce) ⊎ (n ≤ retry_delay))
      × (Run debounce (started ∷ later n es) l ⊎ Run debounce (started ∷ later n (taken ∷ es)) l)

  timer_Follows :
      (es : List Event) (l : Loop) (t : Timer)
      → Run debounce es l
      → l.running ≡ false
      → l.timer ≡ t
      → is_on t ≡ true
      → IsBounded debounce t
      → Follows es
  timer_Follows es l off r idle e h b = cc
  timer_Follows es l (armed n) r idle e h b = (n, _, b, inl (Run-started n es l r idle e))

  -- Whenever no pass is on and a call of fire has not been seen by a pass that started after it and
  -- ended without error, or the last pass ended with an error, a run goes on with a pass without
  -- any further call of fire, after at most the debounce or the delay of a retry.
  pub pass-Follows :
      (es : List Event) (l : Loop)
      → Run debounce es l
      → is_stale es ≡ true
      → l.running ≡ false
      → Follows es
  pass-Follows es l r stale idle = elim (Bool-cases l.pending) [
    | inl full ↦ (
      debounce,
      _,
      inl (omega arith),
      inr (Run-started debounce (taken ∷ es) _ (Run-taken es l r idle full) idle refl),
    )
    | inr n ↦
        timer_Follows es l l.timer r idle refl (ground (arith, stale_is_due r stale, n))
          (Run-Kept r).bounded
  ]
