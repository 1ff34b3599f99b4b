-- ===== src/Pipeline/Reconcile/Prepare.antt =====
-- What every inspection keeps, the preparation of a document keeps.
use gobackup_docker.Base.{Bytes, if-holds}
use gobackup_docker.Base.Dict.{Dict}
use gobackup_docker.Tree.{Fields}
use gobackup_docker.Container.{Config}
use gobackup_docker.Pipeline.Discover.{Settings}
use gobackup_docker.Pipeline.Phases.{process_archive_volumes}
use gobackup_docker.Pipeline.Phases.Keeps.{process_archive-keeps, process_sqlite-keeps}
use gobackup_docker.Pipeline.Reconcile.{
  World, Prepared, moved, models_of, prepare, as_rendered, inspect_call, prepared,
}

module _ {W : Type 0} (world : World W) (cfg : Settings) (spec : Config) (P : W → Type 0)
    (step : (id : Bytes) (w : W) → P w → P (inspect_call world cfg spec id w).0) where
  prepare-keeps :
      (w : W) (ids : Dict Bytes) (doc : Fields)
      → P w
      → P (prepare (inspect_call world cfg spec) ids doc w).0
  unfolding prepare moved
  prepare-keeps w ids doc h =
      let archived = process_archive_volumes (inspect_call world cfg spec) ids (models_of doc) w in
      process_sqlite-keeps (inspect_call world cfg spec) ids P step archived.1 archived.0
        (process_archive-keeps (inspect_call world cfg spec) ids P step (models_of doc) w h)

  pub prepared-keeps :
      (w : W) (ids : Dict Bytes) (doc : Fields) → P w → P (prepared world cfg spec w ids doc).0
  prepared-keeps w ids doc h =
      if-holds (λ (r : W × Prepared). P r.0) world.managed
        (prepare (inspect_call world cfg spec) ids doc w) (w, as_rendered doc)
        (prepare-keeps w ids doc h) h
