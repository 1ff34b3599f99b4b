-- ===== src/Pipeline/Reconcile/Recovery.antt =====
-- What a full pass leaves of the engine and of the record of a replacement.
use gobackup_docker.Pipeline.Reconcile.Prepare.{prepared-keeps}
use gobackup_docker.Pipeline.Creds.Secrets.{resolve_creds-keeps}
use gobackup_docker.Base.{true, ℕ, Bool, Option, none, some, List, Bytes, ◌≡◌, if-holds}
use gobackup_docker.Base.Dict.{Dict}
use gobackup_docker.Tree.{Fields}
use gobackup_docker.Container.{Config}
use gobackup_docker.Render.Model.{Profiles, ResolvedCred}
use gobackup_docker.Apply.{Applied, apply}
use gobackup_docker.Apply.Steps.{Steps, apply_step}
use gobackup_docker.Pipeline.Docker.{Container}
use gobackup_docker.Pipeline.Manage.{EngineExtras}
use gobackup_docker.Pipeline.Manage.Ensure.Laws.{
  HostLaws, Leaves, untouched, Leaves-trans, Leaves-refl,
}
use gobackup_docker.Pipeline.Manage.Ensure.Safety.{IsConsistent, Leaves-IsConsistent, ensure_lem}
use gobackup_docker.Pipeline.Discover.{Settings, render}
use gobackup_docker.Pipeline.Reconcile.{
  inspect_call, updated, Reconciler, World, Prepared, Pass, failing, succeeding, ensure,
  engine_synced, sync_phase, applied, marshalled, rendered, prepared, profiles_loaded,
  containers_listed, engine_recovered, reconcile, no_engine_extras, extras_of,
}

-- no container and not the record is touched
abbrev pub Alike : {W : Type 0} (world : World W) → HostLaws world.host world.codec → W → W → Type 0
Alike world laws w w' =
    ((n : Bytes) → laws.holds n w' ≡ laws.holds n w) × (laws.file w' ≡ laws.file w)

-- What is relied on of the world: the laws of its host, and that listing the containers, reading the
-- profiles and what is done to the files that are apart from that of the record, the temporary ones
-- among them, leave the containers and the record of the replacement alone.
pub record WorldLaws {W : Type 0} (world : World W) : Type 0 where
  pub host_laws : HostLaws world.host world.codec
  pub list_alike : (w : W) → Alike world host_laws w (world.list w).0
  pub load_alike : (w : W) → Alike world host_laws w (world.load_profiles w).0
  pub apart : Bytes → Bool
  pub files_alike : Steps world.files apart (Alike world host_laws)

module _ {W : Type 0} {world : World W} (laws : WorldLaws world) (cfg : Settings) (spec : Config)
    (start : W) (c : IsConsistent laws.host_laws start) where
  abbrev Left : W → Type 0
  Left w = Leaves laws.host_laws start w

  abbrev Safe : Pass world cfg spec → Type 0
  Safe p = Left p.0

  alike : (w w' : W) → Left w → Alike world laws.host_laws w w' → Left w'
  alike w w' l a = Leaves-trans laws.host_laws l (untouched a.0 a.1)

  ensure-Left : (extras : EngineExtras) (w : W) → Left w → Left (ensure world cfg spec extras w).0
  ensure-Left extras w l =
      Leaves-trans laws.host_laws l
        (ensure_lem laws.host_laws world.json spec extras w
          (Leaves-IsConsistent laws.host_laws c l)).0

  engine_synced-Safe :
      (r : Reconciler) (a : W × Option (Bytes × Bool))
      → Left a.0
      → Safe (engine_synced world cfg spec r a)
  unfolding engine_synced failing succeeding
  engine_synced-Safe r (w, none) l = l
  engine_synced-Safe r (w, some a) l = l

  sync_phase-Safe :
      (p : Prepared) (creds : List ResolvedCred) (w : W) (r : Reconciler)
      → Left w
      → Safe (sync_phase world cfg spec p creds w r)
  unfolding sync_phase succeeding extras_of
  sync_phase-Safe p creds w r l =
      let extras = extras_of (inspect_call world cfg spec) p creds w in
      let left =
        resolve_creds-keeps (inspect_call world cfg spec) Left
          (λ id v m.
            alike v _ m ((λ n. laws.host_laws.show_holds n id v), laws.host_laws.show_file id v))
          creds w l in
      if-holds Safe world.managed
        (engine_synced world cfg spec r (ensure world cfg spec extras.1 extras.0))
        (succeeding world cfg spec w r)
        (engine_synced-Safe r (ensure world cfg spec extras.1 extras.0)
          (ensure-Left extras.1 extras.0 left))
        l

  applied-Safe :
      (p : Prepared) (n : ℕ) (creds : List ResolvedCred) (r : Reconciler) (a : Applied W)
      → Left a.0
      → Safe (applied world cfg spec p n creds r a)
  unfolding applied failing
  applied-Safe p n creds r (w, writer, none) l = l
  applied-Safe p n creds r (w, writer, some changed) l =
      sync_phase-Safe p creds w (updated world cfg spec p n w r writer changed) l

  marshalled-Safe :
      (p : Prepared) (n : ℕ) (creds : List ResolvedCred) (w : W) (r : Reconciler) (o : Option Bytes)
      → laws.apart r.writer.path ≡ true
      → Left w
      → Safe (marshalled world cfg spec p n creds w r o)
  unfolding marshalled failing
  marshalled-Safe p n creds w r none k l = l
  marshalled-Safe p n creds w r (some text) k l =
      applied-Safe p n creds r (apply world.files world.is_yaml r.writer text w)
        (alike w _ l (apply_step laws.files_alike world.is_yaml r.writer k text w))

  rendered-Safe :
      (w : W) (r : Reconciler) (o : Option (Fields × ℕ × Dict Bytes × List ResolvedCred))
      → laws.apart r.writer.path ≡ true
      → Left w
      → Safe (rendered world cfg spec w r o)
  unfolding rendered failing
  rendered-Safe w r none k l = l
  rendered-Safe w r (some (doc, n, ids, creds)) k l =
      let p = prepared world cfg spec w ids doc in
      marshalled-Safe p.1 n creds p.0 r _ k (
        prepared-keeps world cfg spec Left
          (λ id v m.
            alike v _ m ((λ x. laws.host_laws.show_holds x id v), laws.host_laws.show_file id v))
          w ids doc l)

  profiles_loaded-Safe :
      (r : Reconciler) (containers : Option (List Container)) (a : W × Option Profiles)
      → laws.apart r.writer.path ≡ true
      → Left a.0
      → Safe (profiles_loaded world cfg spec r containers a)
  unfolding profiles_loaded
  profiles_loaded-Safe r containers (w, profiles) k l =
      rendered-Safe w r (render cfg world.engine containers profiles) k l

  containers_listed-Safe :
      (r : Reconciler) (a : W × Option (List Container))
      → laws.apart r.writer.path ≡ true
      → Left a.0
      → Safe (containers_listed world cfg spec r a)
  unfolding containers_listed failing
  containers_listed-Safe r (w, none) k l = l
  containers_listed-Safe r (w, some containers) k l =
      profiles_loaded-Safe r (some containers) (world.load_profiles w) k
        (alike w _ l (laws.load_alike w))

  engine_recovered-Safe :
      (r : Reconciler) (a : W × Option (Bytes × Bool))
      → laws.apart r.writer.path ≡ true
      → Left a.0
      → Safe (engine_recovered world cfg spec r a)
  unfolding engine_recovered failing
  engine_recovered-Safe r (w, none) k l = l
  engine_recovered-Safe r (w, some a) k l =
      containers_listed-Safe r (world.list w) k (alike w _ l (laws.list_alike w))

  reconcile-Safe :
      (r : Reconciler) → laws.apart r.writer.path ≡ true → Safe (reconcile world cfg spec start r)
  unfolding reconcile
  reconcile-Safe r k =
      if-holds Safe world.managed _ _
        (engine_recovered-Safe r (ensure world cfg spec no_engine_extras start) k
          (ensure-Left no_engine_extras start (Leaves-refl laws.host_laws start)))
        (containers_listed-Safe r (world.list start) k
          (alike start _ (Leaves-refl laws.host_laws start) (laws.list_alike start)))

  -- From a host on which every saved record can be finished, a full pass that writes another file
  -- than that of the record, wherever it stops, leaves
  -- the containers and the record as they were, or a valid record and a state from which a next
  -- pass can finish the replacement, or the replacement in the engine's place and no record; and
  -- every saved record can be finished again.
  pub reconcile_keeps :
      (r : Reconciler)
      → laws.apart r.writer.path ≡ true
      → let w' = (reconcile world cfg spec start r).0 in
        Leaves laws.host_laws start w' × IsConsistent laws.host_laws w'
  reconcile_keeps r k =
      (reconcile-Safe r k, Leaves-IsConsistent laws.host_laws c (reconcile-Safe r k))
