-- ===== src/Examples/Volumes.antt =====
-- Paths of a container moved to the engine.
use gobackup_docker.Pipeline.Volumes.Backed.{MadeOf}
use gobackup_docker.Pipeline.Volumes.Sqlite.Again.{sqlite_mounts_again}
use gobackup_docker.Base.{
  suc, ℕ, All, true, false, Option, some, List, [], ◌∷◌, Bytes, codes, refl, ◌≡◌,
}
use gobackup_docker.Tree.{str, obj, Fields, end, field}
use gobackup_docker.Pipeline.Docker.{MountPoint, InspectResult}
use gobackup_docker.Pipeline.Volumes.{
  ArchiveVolumes, build_dest_map, discover_archive_volumes, sqlite_mounts_for_model,
}
use gobackup_docker.Pipeline.Volumes.Archive.{AreMoved, discover_archive_lem}
use gobackup_docker.Pipeline.Volumes.Sqlite.{AreRewritten, sqlite_mounts_lem}

abbrev data_point : MountPoint
data_point = record {
  type = codes "volume";
  name = codes "data";
  source = codes "/var/lib/docker/volumes/data/_data";
  destination = codes "/data/";
  rw = true;
}

abbrev info : InspectResult
info = record {
  id = codes "c1";
  name = codes "app";
  image = [];
  command = [];
  env = [];
  labels = [];
  mounts = data_point ∷ [];
  networks = [];
}

abbrev inspect : Bytes → ℕ → ℕ × Option InspectResult
inspect id n = (suc n, some info)

abbrev includes : List Bytes
includes = codes "/data/files" ∷ codes "/etc" ∷ codes "/data/" ∷ []

discover_archive_example :
    (av : ArchiveVolumes) × ((discover_archive_volumes inspect
        (codes "c1")
        (codes "m")
        includes
        []
        0).1
      ≡ some av)
    × AreMoved info.mounts (codes "m") av.mounts includes av.includes
    × All (MadeOf info.mounts (codes "m") true) av.mounts
    × (av.excludes ≡ [])
discover_archive_example =
    discover_archive_lem inspect (codes "c1") (codes "m") 0 info includes [] refl refl

abbrev databases : Fields
databases =
    field (codes "db")
      (obj (
        field (codes "type") (str (codes "sqlite"))
          (field (codes "path") (str (codes "/data/db.sqlite")) end)))
      (field (codes "pg") (obj (field (codes "type") (str (codes "postgresql")) end)) end)

sqlite_mounts_example :
    let mounts = build_dest_map (data_point ∷ []) in
    let r = sqlite_mounts_for_model mounts (codes "m") [] databases in
    AreRewritten (data_point ∷ []) (codes "m") r.1 databases r.0
    × All (MadeOf (data_point ∷ []) (codes "m") false) r.1
sqlite_mounts_example = sqlite_mounts_lem (data_point ∷ []) (codes "m") databases

sqlite_mounts_again_example :
    let mounts = build_dest_map (data_point ∷ []) in
    let moved = (sqlite_mounts_for_model mounts (codes "m") [] databases).0 in
    sqlite_mounts_for_model mounts (codes "m") [] moved ≡ (moved, [])
sqlite_mounts_again_example = sqlite_mounts_again (data_point ∷ []) (codes "m") databases
