-- ===== src/Supervisor/System/Safety.antt =====
-- The pending replacement can be finished at every moment of the system's life.
use gobackup_docker.Base.{true, ℕ, none, List, ◌≡◌, ◌⊎◌, inl, inr, sym, ap, true, ◌∙◌}
use gobackup_docker.Container.{Config}
use gobackup_docker.Pipeline.Discover.{Settings}
use gobackup_docker.Pipeline.Manage.Replace.{PendingReplacement}
use gobackup_docker.Pipeline.Manage.Ensure.{Host, Codec}
use gobackup_docker.Pipeline.Manage.Ensure.Laws.{HostLaws, holds, Saved}
use gobackup_docker.Pipeline.Manage.Ensure.Safety.{IsConsistent}
use gobackup_docker.Pipeline.Reconcile.{Reconciler, World, Pass}
use gobackup_docker.Pipeline.Reconcile.Pass.{AfterPass, reconcile_lem}
use gobackup_docker.Pipeline.Reconcile.Recovery.{WorldLaws, reconcile_keeps}
use gobackup_docker.Supervisor.Loop.{Event}
use gobackup_docker.Supervisor.System.{System, SystemRun, begin, looped, passed, changed, pass}

-- The record's file is left alone and, if it holds a record, the name of its engine is left alone or
-- set free. Anything else may change.
abbrev pub Spares :
    {W : Type 0} {host : Host W} {codec : Codec} (laws : HostLaws host codec) → W → W → Type 0
Spares laws w w' =
    (laws.file w' ≡ laws.file w)
    × ((p : PendingReplacement)
        → Saved laws p w
        → (holds laws p w' ≡ holds laws p w) ⊎ (holds laws p w' ≡ none))

pub Spares-IsConsistent :
    {W : Type 0} {host : Host W} {codec : Codec} (laws : HostLaws host codec) (w w' : W)
    → IsConsistent laws w
    → Spares laws w w'
    → IsConsistent laws w'
Spares-IsConsistent laws w w' c (f, h) = λ p s v pl.
    let s' : Saved laws p w = record { text = s.text; saved = sym f ∙ s.saved; reads = s.reads } in
    elim (h p s') [ inl same ↦ rw same (c p s' v pl) | inr free ↦ rw free tt ]

-- a pass writes to no other file than the passes before it
AfterPass-path :
    {W : Type 0} (world : World W) (cfg : Settings) (spec : Config) (r : Reconciler)
    (p : Pass world cfg spec)
    → AfterPass world cfg spec r p
    → p.1.writer.path ≡ r.writer.path
AfterPass-path world cfg spec r (w, r', b) (e, inl (same, failed)) = ap (λ s. s.writer.path) same
AfterPass-path world cfg spec r (w, r', b) (e, inr wrote) = wrote.path

module _ {W : Type 0} {world : World W} (laws : WorldLaws world) (cfg : Settings) (spec : Config)
    (debounce : ℕ) where
  abbrev Safe : System W → Type 0
  Safe s = IsConsistent laws.host_laws s.outside × (laws.apart s.reconciler.writer.path ≡ true)

  system-Safe :
      (w : W) (r : Reconciler) (es : List Event) (s : System W)
      → IsConsistent laws.host_laws w
      → laws.apart r.writer.path ≡ true
      → SystemRun world cfg spec debounce (Spares laws.host_laws) w r es s
      → Safe s
  system-Safe w r es s c a begin = (c, a)
  system-Safe w r es s c a (looped e run n k) = system-Safe w r _ _ c a run
  system-Safe w r es s c a (passed {s = t} run k) =
      let safe = system-Safe w r _ _ c a run in
      let after = reconcile_lem world cfg spec t.outside t.reconciler in
      (
        (reconcile_keeps laws cfg spec t.outside safe.0 t.reconciler safe.1).1,
        ap laws.apart (AfterPass-path world cfg spec t.reconciler (pass world cfg spec t) after)
            ∙ safe.1,
      )
  system-Safe w r es s c a (changed {s = t} w' run h) =
      let safe = system-Safe w r _ _ c a run in
      (Spares-IsConsistent laws.host_laws t.outside w' safe.0 h, safe.1)

  -- Started on a host on which every saved record can be finished, with a config beside the record,
  -- whatever passes are run, whatever calls of theirs fail and whatever else happens on the host in
  -- between, as long as it leaves the record alone, and alone or free the name of the engine in it:
  -- every saved record can be finished.
  pub system-IsConsistent :
      (w : W) (r : Reconciler) (es : List Event) (s : System W)
      → IsConsistent laws.host_laws w
      → laws.apart r.writer.path ≡ true
      → SystemRun world cfg spec debounce (Spares laws.host_laws) w r es s
      → IsConsistent laws.host_laws s.outside
  system-IsConsistent w r es s c a run = (system-Safe w r es s c a run).0
