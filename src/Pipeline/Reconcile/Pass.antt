-- ===== src/Pipeline/Reconcile/Pass.antt =====
-- What a pass leaves.
use gobackup_docker.Base.{
  if-holds, Bool-cases, inl, inr, ◌⊎◌, ◌≡◌, refl, ap, ℕ, Bool, true, false, not, Option,
  Option-cases, none, some, List, Bytes, str_eq, str_eq_iff,
}
use gobackup_docker.Base.Dict.{Dict}
use gobackup_docker.Tree.{Fields}
use gobackup_docker.Container.{Config}
use gobackup_docker.Render.Model.{Profiles, ResolvedCred}
use gobackup_docker.Apply.{FileSystem, FileWriter, Applied, apply, stored}
use gobackup_docker.Pipeline.Docker.{Container}
use gobackup_docker.Pipeline.Discover.{Settings, render}
use gobackup_docker.Pipeline.Reconcile.{
  inspect_call, updated, Reconciler, World, Prepared, Pass, with_error, failing, succeeding, ensure,
  engine_synced, sync_phase, applied, marshalled, rendered, prepared, profiles_loaded,
  containers_listed, engine_recovered, reconcile, no_engine_extras, extras_of,
}

-- what Apply leaves of the writer
abbrev pub AfterWriter : {F : Type 0} → FileWriter → Bytes → Applied F → Type 0
AfterWriter w cfg (f, w', none) = w' ≡ w
AfterWriter w cfg (f, w', some b) = w' ≡ record w { last = cfg }

module _ {F : Type 0} (fs : FileSystem F) (is_yaml : Bytes → Bool) (w : FileWriter)
    (cfg : Bytes) where
  stored-AfterWriter : (fr : F × Bool) → AfterWriter w cfg (stored fs is_yaml w cfg fr)
  unfolding stored
  stored-AfterWriter (f, true) = refl
  stored-AfterWriter (f, false) = refl

  apply-AfterWriter : (f : F) → AfterWriter w cfg (apply fs is_yaml w cfg f)
  unfolding apply
  apply-AfterWriter f = elim (Bool-cases (str_eq cfg w.last)) [
    | inl y ↦ rw y (ap (λ t. record w { last = t }) (rw ((str_eq_iff cfg w.last).0 y) refl))
    | inr n ↦ rw n (elim (Bool-cases (is_yaml cfg)) [
      | inl y ↦ rw y (stored-AfterWriter _)
      | inr k ↦ rw k refl
    ])
  ]

module _ {W : Type 0} (world : World W) (cfg : Settings) (spec : Config) where
  -- the containers were listed, and the profiles read right after them, with the world left `at`
  pub record IsRead (containers : List Container) (profiles : Profiles) (at : W) : Type 0 where
    pub start : W
    pub mid : W
    pub listed : world.list start ≡ (mid, some containers)
    pub loaded : world.load_profiles mid ≡ (at, some profiles)

  -- The text written last is the document that the containers and the profiles that were read
  -- render to, with its paths moved and escaped if there is a manager.
  pub record Wrote (r r' : Reconciler) : Type 0 where
    pub containers : List Container
    pub profiles : Profiles
    pub doc : Fields
    pub ids : Dict Bytes
    pub creds : List ResolvedCred
    pub at : W
    pub read : IsRead containers profiles at
    pub renders :
        render cfg world.engine (some containers) (some profiles)
        ≡ some (doc, r'.status.containers, ids, creds)
    pub marshals :
        world.marshal (prepared world cfg spec at ids doc).1.document ≡ some r'.writer.last
    pub models : r'.status.models ≡ (prepared world cfg spec at ids doc).1.names
    pub path : r'.writer.path ≡ r.writer.path

  -- A pass that answers an error has recorded it, and one that does not has recorded that there is
  -- none and has written; one that has not written has changed nothing but the error.
  abbrev pub AfterPass : Reconciler → Pass world cfg spec → Type 0
  AfterPass r (w, r', b) =
      (r'.status.has_last_error ≡ not b)
      × (((r' ≡ with_error world cfg spec true r) × (b ≡ false)) ⊎ Wrote r r')

  failing-AfterPass : (w : W) (r : Reconciler) → AfterPass r (failing world cfg spec w r)
  unfolding failing
  failing-AfterPass w r = (refl, inl (refl, refl))

  module _ (r : Reconciler) where
    pub Wrote-error :
        (b : Bool) (r' : Reconciler) → Wrote r r' → Wrote r (with_error world cfg spec b r')
    Wrote-error b r' h = record {
      containers = h.containers;
      profiles = h.profiles;
      doc = h.doc;
      ids = h.ids;
      creds = h.creds;
      at = h.at;
      read = h.read;
      renders = h.renders;
      marshals = h.marshals;
      models = h.models;
      path = h.path;
    }

    engine_synced-AfterPass :
        (r' : Reconciler) (answer : W × Option (Bytes × Bool))
        → Wrote r r'
        → AfterPass r (engine_synced world cfg spec r' answer)
    unfolding engine_synced failing succeeding
    engine_synced-AfterPass r' (w, none) h = (refl, inr (Wrote-error true r' h))
    engine_synced-AfterPass r' (w, some a) h = (refl, inr (Wrote-error false r' h))

    sync_phase-AfterPass :
        (p : Prepared) (creds : List ResolvedCred) (w : W) (r' : Reconciler)
        → Wrote r r'
        → AfterPass r (sync_phase world cfg spec p creds w r')
    unfolding sync_phase succeeding
    sync_phase-AfterPass p creds w r' h =
        if-holds (AfterPass r) world.managed _ (succeeding world cfg spec w r')
          (engine_synced-AfterPass r'
            (let extras = extras_of (inspect_call world cfg spec) p creds w in
              ensure world cfg spec extras.1 extras.0)
            h)
          (refl, inr (Wrote-error false r' h))

    module _ (containers : List Container) (profiles : Profiles) (doc : Fields) (n : ℕ)
        (ids : Dict Bytes) (creds : List ResolvedCred)
        (e : render cfg world.engine (some containers) (some profiles) ≡ some (doc, n, ids, creds))
        (at : W) (read : IsRead containers profiles at) where
      applied-AfterPass :
          (text : Bytes) (a : Applied W)
          → world.marshal (prepared world cfg spec at ids doc).1.document ≡ some text
          → AfterWriter r.writer text a
          → AfterPass r (applied world cfg spec (prepared world cfg spec at ids doc).1 n creds r a)
      unfolding applied
      applied-AfterPass text (w, writer, none) m h = rw h (failing-AfterPass w r)
      applied-AfterPass text (w, writer, some changed) m h = rw h (
          sync_phase-AfterPass (prepared world cfg spec at ids doc).1 creds w
            (updated world cfg spec (prepared world cfg spec at ids doc).1 n w r
              (record r.writer { last = text }) changed)
            (record {
              containers = containers;
              profiles = profiles;
              doc = doc;
              ids = ids;
              creds = creds;
              at = at;
              read = read;
              renders = e;
              marshals = m;
              models = refl;
              path = refl;
            }))

      rendered-AfterPass : AfterPass r (rendered world cfg spec at r (some (doc, n, ids, creds)))
      unfolding rendered marshalled
      rendered-AfterPass =
          elim (Option-cases (world.marshal (prepared world cfg spec at ids doc).1.document)) [
            | inl none_ ↦ rw none_ (failing-AfterPass (prepared world cfg spec at ids doc).0 r)
            | inr (text, m) ↦ rw m (
                applied-AfterPass text _ m (
                  apply-AfterWriter world.files world.is_yaml r.writer text
                    (prepared world cfg spec at ids doc).0))
          ]

    profiles_loaded-AfterPass :
        (start mid : W) (containers : List Container) (a : W × Option Profiles)
        → world.list start ≡ (mid, some containers)
        → world.load_profiles mid ≡ a
        → AfterPass r (profiles_loaded world cfg spec r (some containers) a)
    unfolding profiles_loaded rendered render
    profiles_loaded-AfterPass start mid containers (w, none) l p = failing-AfterPass w r
    profiles_loaded-AfterPass start mid containers (w, some profiles) l p =
        rendered-AfterPass containers profiles _ _ _ _ refl w
          (record { start = start; mid = mid; listed = l; loaded = p })

    containers_listed-AfterPass :
        (start : W) (a : W × Option (List Container))
        → world.list start ≡ a
        → AfterPass r (containers_listed world cfg spec r a)
    unfolding containers_listed
    containers_listed-AfterPass start (w, none) l = failing-AfterPass w r
    containers_listed-AfterPass start (w, some containers) l =
        profiles_loaded-AfterPass start w containers (world.load_profiles w) l refl

    engine_recovered-AfterPass :
        (a : W × Option (Bytes × Bool)) → AfterPass r (engine_recovered world cfg spec r a)
    unfolding engine_recovered
    engine_recovered-AfterPass (w, none) = failing-AfterPass w r
    engine_recovered-AfterPass (w, some a) = containers_listed-AfterPass w (world.list w) refl

  -- A pass that answers an error has recorded it, and one that does not has recorded that there is
  -- none. Either the text that the writer holds for the file is then the document that the
  -- containers that were listed and the profiles that were read after them render to, moved and
  -- escaped if there is a manager, and the status has its models and the number of its sources, or the pass answers an error and has changed
  -- nothing else of the writer and the status.
  pub reconcile_lem : (w : W) (r : Reconciler) → AfterPass r (reconcile world cfg spec w r)
  unfolding reconcile
  reconcile_lem w r =
      if-holds (AfterPass r) world.managed _ _
        (engine_recovered-AfterPass r (ensure world cfg spec no_engine_extras w))
        (containers_listed-AfterPass r w (world.list w) refl)
