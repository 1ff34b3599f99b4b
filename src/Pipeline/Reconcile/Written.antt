-- ===== src/Pipeline/Reconcile/Written.antt =====
-- What a full pass leaves in the config's file.
use gobackup_docker.Pipeline.Reconcile.Prepare.{prepared-keeps}
use gobackup_docker.Pipeline.Creds.Secrets.{resolve_creds-keeps}
use gobackup_docker.Base.{
  ◌≡◌, refl, ap, sym, ◌∙◌, ◌⊎◌, inl, inr, ℕ, Bool, true, false, Option, none, some, List, [], Bytes,
  if-holds,
}
use mathlib.Core.Path.{subst}
use gobackup_docker.Base.Dict.{Dict}
use gobackup_docker.Tree.{Fields}
use gobackup_docker.Container.{Config}
use gobackup_docker.Render.Model.{Profiles, ResolvedCred}
use gobackup_docker.Apply.{FileWriter, Applied, apply}
use gobackup_docker.Apply.Laws.{FileLaws}
use gobackup_docker.Apply.Atomic.{AfterApply, apply_lem}
use gobackup_docker.Pipeline.Docker.{Container}
use gobackup_docker.Pipeline.Manage.{EngineExtras}
use gobackup_docker.Pipeline.Manage.Ensure.Steps.{HostSteps, ensure_step}
use gobackup_docker.Pipeline.Discover.{Settings, render}
use gobackup_docker.Pipeline.Reconcile.Pass.{Wrote, AfterPass, reconcile_lem}
use gobackup_docker.Pipeline.Reconcile.{
  inspect_call, updated, Reconciler, World, Prepared, Pass, failing, succeeding, ensure,
  engine_synced, sync_phase, applied, marshalled, rendered, prepared, profiles_loaded,
  containers_listed, engine_recovered, reconcile, no_engine_extras, extras_of,
}

-- What is relied on: the laws of the file system at the config's path, and that no call of Docker or
-- on the record of a replacement, no listing and no reading of the profiles touches the config.
pub record ConfigLaws {W : Type 0} (world : World W) (path : Bytes) : Type 0 where
  pub files : FileLaws world.files path
  pub host_steps : HostSteps world.host (λ w w'. files.read path w' ≡ files.read path w)
  pub list_same : (w : W) → files.read path (world.list w).0 ≡ files.read path w
  pub load_same : (w : W) → files.read path (world.load_profiles w).0 ≡ files.read path w

module _ {W : Type 0} {world : World W} {path : Bytes} (laws : ConfigLaws world path) where
  abbrev read : W → Option Bytes
  read = laws.files.read path

  -- the file holds what the writer wrote last, if it wrote anything
  abbrev pub Holds : FileWriter → W → Type 0
  Holds v w = (v.path ≡ path) × ((v.last ≡ []) ⊎ (read w ≡ some v.last))

  Holds-same : (v : FileWriter) (w w' : W) → Holds v w → read w' ≡ read w → Holds v w'
  Holds-same v w w' (p, inl n) e = (p, inl n)
  Holds-same v w w' (p, inr h) e = (p, inr (e ∙ h))

  -- a write that failed may have left the new text
  abbrev Stored : FileWriter → Bytes → Applied W → Type 0
  Stored v text (w, v', some changed) = Holds v' w
  Stored v text (w, v', none) = (v' ≡ v) × (Holds v w ⊎ (read w ≡ some text))

  AfterApply-Stored :
      (last text : Bytes) (w : W) (a : Applied W)
      → let v : FileWriter = record { path = path; last = last } in
        Holds v w → AfterApply v laws.files w text a → Stored v text a
  AfterApply-Stored last text w (w', v', some true) h (r, e) = rw e (refl, inr r)
  AfterApply-Stored last text w (w', v', some false) h (f, e, k) = rw (e, f) h
  AfterApply-Stored last text w (w', v', none) h (e, inl same) =
      (e, inl (Holds-same (record { path = path; last = last }) w w' h same))
  AfterApply-Stored last text w (w', v', none) h (e, inr new) = (e, inr new)

  apply-Stored :
      (v : FileWriter) (text : Bytes) (w : W)
      → Holds v w
      → Stored v text (apply world.files world.is_yaml v text w)
  apply-Stored v text w (p, h) =
      let v' : FileWriter = record { path = path; last = v.last } in
      let same : v' ≡ v = ap (λ q. record v { path = q }) (sym p) in
      subst (λ u. Stored u text (apply world.files world.is_yaml u text w)) same
        (AfterApply-Stored v.last text w (apply world.files world.is_yaml v' text w) (refl, h)
          (apply_lem v' laws.files world.is_yaml text w h))

  module _ (cfg : Settings) (spec : Config) where
    -- After a pass the file holds what the writer wrote last; only a pass that answers an error may
    -- leave there a text that the writer does not know of.
    abbrev AfterFile : Reconciler → Pass world cfg spec → Type 0
    AfterFile r (w, r', b) =
        Holds r'.writer w
        ⊎ ((b ≡ false) × (r'.writer ≡ r.writer) × (text : Bytes) × (read w ≡ some text))

    abbrev Held : Pass world cfg spec → Type 0
    Held p = Holds p.1.writer p.0

    ensure-Holds :
        (extras : EngineExtras) (v : FileWriter) (w : W)
        → Holds v w
        → Holds v (ensure world cfg spec extras w).0
    ensure-Holds extras v w h =
        Holds-same v w _ h (ensure_step laws.host_steps w world.codec world.json spec extras)

    engine_synced-Held :
        (r : Reconciler) (a : W × Option (Bytes × Bool))
        → Holds r.writer a.0
        → Held (engine_synced world cfg spec r a)
    unfolding engine_synced failing succeeding
    engine_synced-Held r (w, none) h = h
    engine_synced-Held r (w, some a) h = h

    sync_phase-Held :
        (p : Prepared) (creds : List ResolvedCred) (w : W) (r : Reconciler)
        → Holds r.writer w
        → Held (sync_phase world cfg spec p creds w r)
    unfolding sync_phase succeeding extras_of
    sync_phase-Held p creds w r h =
        let extras = extras_of (inspect_call world cfg spec) p creds w in
        let held =
          resolve_creds-keeps (inspect_call world cfg spec) (Holds r.writer)
            (λ id v k. Holds-same r.writer v _ k (laws.host_steps.inspect id v)) creds w h in
        if-holds Held world.managed
          (engine_synced world cfg spec r (ensure world cfg spec extras.1 extras.0))
          (succeeding world cfg spec w r)
          (engine_synced-Held r (ensure world cfg spec extras.1 extras.0)
            (ensure-Holds extras.1 r.writer extras.0 held))
          h

    applied-AfterFile :
        (p : Prepared) (n : ℕ) (creds : List ResolvedCred) (r : Reconciler) (text : Bytes)
        (a : Applied W)
        → Stored r.writer text a
        → AfterFile r (applied world cfg spec p n creds r a)
    unfolding applied failing
    applied-AfterFile p n creds r text (w, v, none) (e, inl h) = inl (rw e h)
    applied-AfterFile p n creds r text (w, v, none) (e, inr new) = inr (refl, e, text, new)
    applied-AfterFile p n creds r text (w, v, some changed) h =
        inl (sync_phase-Held p creds w (updated world cfg spec p n w r v changed) h)

    marshalled-AfterFile :
        (p : Prepared) (n : ℕ) (creds : List ResolvedCred) (w : W) (r : Reconciler)
        (o : Option Bytes)
        → Holds r.writer w
        → AfterFile r (marshalled world cfg spec p n creds w r o)
    unfolding marshalled failing
    marshalled-AfterFile p n creds w r none h = inl h
    marshalled-AfterFile p n creds w r (some text) h =
        applied-AfterFile p n creds r text (apply world.files world.is_yaml r.writer text w)
          (apply-Stored r.writer text w h)

    rendered-AfterFile :
        (w : W) (r : Reconciler) (o : Option (Fields × ℕ × Dict Bytes × List ResolvedCred))
        → Holds r.writer w
        → AfterFile r (rendered world cfg spec w r o)
    unfolding rendered failing
    rendered-AfterFile w r none h = inl h
    rendered-AfterFile w r (some (doc, n, ids, creds)) h =
        let p = prepared world cfg spec w ids doc in
        marshalled-AfterFile p.1 n creds p.0 r _ (
          prepared-keeps world cfg spec (Holds r.writer)
            (λ id v k. Holds-same r.writer v _ k (laws.host_steps.inspect id v)) w ids doc h)

    loaded-AfterFile :
        (r : Reconciler) (containers : Option (List Container)) (a : W × Option Profiles)
        → Holds r.writer a.0
        → AfterFile r (profiles_loaded world cfg spec r containers a)
    unfolding profiles_loaded
    loaded-AfterFile r containers (w, profiles) h =
        rendered-AfterFile w r (render cfg world.engine containers profiles) h

    listed-AfterFile :
        (r : Reconciler) (a : W × Option (List Container))
        → Holds r.writer a.0
        → AfterFile r (containers_listed world cfg spec r a)
    unfolding containers_listed failing
    listed-AfterFile r (w, none) h = inl h
    listed-AfterFile r (w, some containers) h =
        loaded-AfterFile r (some containers) (world.load_profiles w)
          (Holds-same r.writer w _ h (laws.load_same w))

    recovered-AfterFile :
        (r : Reconciler) (a : W × Option (Bytes × Bool))
        → Holds r.writer a.0
        → AfterFile r (engine_recovered world cfg spec r a)
    unfolding engine_recovered failing
    recovered-AfterFile r (w, none) h = inl h
    recovered-AfterFile r (w, some a) h =
        listed-AfterFile r (world.list w) (Holds-same r.writer w _ h (laws.list_same w))

    reconcile-AfterFile :
        (r : Reconciler) (w : W) → Holds r.writer w → AfterFile r (reconcile world cfg spec w r)
    unfolding reconcile
    reconcile-AfterFile r w h =
        if-holds (AfterFile r) world.managed _ _
          (recovered-AfterFile r (ensure world cfg spec no_engine_extras w)
            (ensure-Holds no_engine_extras r.writer w h))
          (listed-AfterFile r (world.list w) (Holds-same r.writer w _ h (laws.list_same w)))

    -- After a pass without error the file holds what the writer does, and that is the document; after
    -- an error the file holds what the writer does, or the writer is as it was and the file has
    -- some other text.
    abbrev pub AfterBoth : Reconciler → Pass world cfg spec → Type 0
    AfterBoth r (w, r', true) = Wrote world cfg spec r r' × Holds r'.writer w
    AfterBoth r (w, r', false) =
        Holds r'.writer w ⊎ ((r'.writer ≡ r.writer) × (text : Bytes) × (read w ≡ some text))

    both :
        (r : Reconciler) (p : Pass world cfg spec)
        → AfterPass world cfg spec r p
        → AfterFile r p
        → AfterBoth r p
    both r (w, r', true) (e, inl (same, f)) h = cc
    both r (w, r', true) (e, inr wrote) (inl h) = (wrote, h)
    both r (w, r', true) (e, inr wrote) (inr (f, same, text, new)) = cc
    both r (w, r', false) a (inl h) = inl h
    both r (w, r', false) a (inr (f, same, text, new)) = inr (same, text, new)

    -- From a state in which the config's file holds what the writer wrote last, if it wrote
    -- anything, and whatever call fails: a pass that ends without error leaves in the file the
    -- document that the containers that it listed and the profiles that it read render to, moved and
    -- escaped if there is a manager, unless that is empty. After one that ends with an error the
    -- file holds what the writer wrote last, or the writer is as it was and the file has some other text.
    pub reconcile_writes :
        (r : Reconciler) (w : W) → Holds r.writer w → AfterBoth r (reconcile world cfg spec w r)
    reconcile_writes r w h =
        both r (reconcile world cfg spec w r) (reconcile_lem world cfg spec w r)
          (reconcile-AfterFile r w h)
