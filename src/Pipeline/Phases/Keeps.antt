-- ===== src/Pipeline/Phases/Keeps.antt =====
-- What every inspection keeps, the discovery of the volumes keeps.
use gobackup_docker.Base.{Option, none, some, List, Bytes, codes, is_empty, if-holds}
use gobackup_docker.Base.Dict.{Dict}
use gobackup_docker.Tree.{
  str, boolean, int, strs, other, arr, obj, Fields, end, field, lookup, as_map,
}
use gobackup_docker.Pipeline.Docker.{InspectResult, MountDef}
use gobackup_docker.Pipeline.Volumes.{ArchiveVolumes, discover_archive_volumes}
use gobackup_docker.Pipeline.Phases.{
  archive_volumes, model_archive_volumes, discovered_volumes, process_archive_volumes,
  model_databases, model_sqlite, process_sqlite_volumes,
}

module _ {W : Type 0} (inspect : Bytes → W → W × Option InspectResult) (ids : Dict Bytes)
    (P : W → Type 0) (step : (id : Bytes) (w : W) → P w → P (inspect id w).0) where
  discover-keeps :
      (id name : Bytes) (includes excludes : List Bytes) (w : W)
      → P w
      → P (discover_archive_volumes inspect id name includes excludes w).0
  unfolding discover_archive_volumes
  discover-keeps id name includes excludes w h =
      if-holds (λ (r : W × Option ArchiveVolumes). P r.0) (is_empty includes) _ _ h (step id w h)

  archive_volumes-keeps :
      (name : Bytes) (includes excludes : List Bytes) (w : W)
      → P w
      → P (archive_volumes inspect ids name includes excludes w).0
  unfolding archive_volumes
  archive_volumes-keeps name includes excludes w h =
      if-holds (λ (r : W × List ArchiveVolumes). P r.0) _ _ _ h
        (discover-keeps _ name includes excludes w h)

  model_archive-keeps :
      (name : Bytes) (o : Option Fields) (w : W)
      → P w
      → P (model_archive_volumes inspect ids name o w).0
  unfolding model_archive_volumes
  model_archive-keeps name none w h = h
  model_archive-keeps name (some archive) w h = archive_volumes-keeps name _ _ w h

  discovered-keeps : (models : Fields) (w : W) → P w → P (discovered_volumes inspect ids models w).0
  unfolding discovered_volumes
  discovered-keeps end w h = h
  discovered-keeps (field name (obj mm) models) w h =
      discovered-keeps models _
        (model_archive-keeps name (as_map (lookup (codes "archive") mm)) w h)
  discovered-keeps (field name (str s) models) w h = discovered-keeps models w h
  discovered-keeps (field name (boolean b) models) w h = discovered-keeps models w h
  discovered-keeps (field name (int n) models) w h = discovered-keeps models w h
  discovered-keeps (field name (strs ss) models) w h = discovered-keeps models w h
  discovered-keeps (field name (other n) models) w h = discovered-keeps models w h
  discovered-keeps (field name (arr xs) models) w h = discovered-keeps models w h

  pub process_archive-keeps :
      (models : Fields) (w : W) → P w → P (process_archive_volumes inspect ids models w).0
  unfolding process_archive_volumes
  process_archive-keeps models w h = discovered-keeps models w h

  model_databases-keeps :
      (name : Bytes) (dbs : Fields) (w : W) → P w → P (model_databases inspect ids name dbs w).0
  unfolding model_databases
  model_databases-keeps name dbs w h =
      if-holds (λ (r : W × Fields × List MountDef). P r.0) _ _ _ h (step _ w h)

  model_sqlite-keeps :
      (name : Bytes) (mm : Fields) (o : Option Fields) (w : W)
      → P w
      → P (model_sqlite inspect ids name mm o w).0
  unfolding model_sqlite
  model_sqlite-keeps name mm none w h = h
  model_sqlite-keeps name mm (some dbs) w h = model_databases-keeps name dbs w h

  pub process_sqlite-keeps :
      (models : Fields) (w : W) → P w → P (process_sqlite_volumes inspect ids models w).0
  unfolding process_sqlite_volumes
  process_sqlite-keeps end w h = h
  process_sqlite-keeps (field name (obj mm) models) w h =
      process_sqlite-keeps models _
        (model_sqlite-keeps name mm (as_map (lookup (codes "databases") mm)) w h)
  process_sqlite-keeps (field name (str s) models) w h = process_sqlite-keeps models w h
  process_sqlite-keeps (field name (boolean b) models) w h = process_sqlite-keeps models w h
  process_sqlite-keeps (field name (int n) models) w h = process_sqlite-keeps models w h
  process_sqlite-keeps (field name (strs ss) models) w h = process_sqlite-keeps models w h
  process_sqlite-keeps (field name (other n) models) w h = process_sqlite-keeps models w h
  process_sqlite-keeps (field name (arr xs) models) w h = process_sqlite-keeps models w h
