-- ===== src/Pipeline/Phases.antt =====
-- internal/pipeline/reconcile.go: the volumes of all models. The inspection of a container is a
-- parameter.
pub mod Keeps
use gobackup_docker.Base.{
  Bool, false, not, ◌&&◌, ◌||◌, Option, none, some, List, [], ◌∷◌, ◌++◌, Bytes, codes, is_empty,
  is_some, if◌then◌else◌,
}
use gobackup_docker.Base.Dict.{Dict, get}
use gobackup_docker.Base.Sort.{sort_texts}
use gobackup_docker.Tree.{
  Value, str, strs, arr, obj, Items, nil, cons, Fields, end, field, lookup, insert, keys, as_map,
}
use gobackup_docker.Pipeline.Docker.{MountDef, InspectResult}
use gobackup_docker.Pipeline.Manage.{or_text}
use gobackup_docker.Pipeline.Volumes.{
  ArchiveVolumes, discover_archive_volumes, apply_archive_volumes, build_dest_map, sqlite_path,
  sqlite_mounts_for_model,
}

-- the items that are strings
unfoldable pub string_items : Items → List Bytes
string_items nil = []
string_items (cons (str s) xs) = s ∷ string_items xs
string_items (cons v xs) = string_items xs

-- the slice alone: the callers look at nothing else
unfoldable pub to_str_slice : Option Value → List Bytes
unfolding string_items
to_str_slice (some (strs xs)) = xs
to_str_slice (some (arr xs)) = string_items xs
to_str_slice _ = []

unfoldable pub has_sqlite_path : Fields → Bool
unfolding sqlite_path
has_sqlite_path end = false
has_sqlite_path (field id (obj db) dbs) = is_some (sqlite_path db) || has_sqlite_path dbs
has_sqlite_path (field id v dbs) = has_sqlite_path dbs

unfoldable pub model_names : Fields → List Bytes
model_names models = sort_texts (keys models)

abbrev has_archive : Value → Bool
has_archive (obj mm) = is_some (lookup (codes "archive") mm)
has_archive v = false

unfoldable archive_keys : Fields → List Bytes
unfolding lookup
archive_keys end = []
archive_keys (field name m models) =
    let rest = archive_keys models in if has_archive m then name ∷ rest else rest

unfoldable pub models_with_archive : Fields → List Bytes
unfolding archive_keys sort_texts
models_with_archive models = sort_texts (archive_keys models)

-- what is kept of the volumes that were found
abbrev with_paths : Option ArchiveVolumes → List ArchiveVolumes
with_paths none = []
with_paths (some av) = if is_empty av.includes && is_empty av.excludes then [] else av ∷ []

-- the databases of a model, moved if their container can be inspected, and the mounts
unfoldable pub moved_databases : Bytes → Fields → Option InspectResult → Fields × List MountDef
unfolding build_dest_map sqlite_mounts_for_model
moved_databases name dbs none = (dbs, [])
moved_databases name dbs (some info) =
    sqlite_mounts_for_model (build_dest_map info.mounts) name [] dbs

module _ {W : Type 0} (inspect : Bytes → W → W × Option InspectResult)
    (model_to_container : Dict Bytes) where
  -- what is appended for a model with these paths
  unfoldable pub archive_volumes : Bytes → List Bytes → List Bytes → W → W × List ArchiveVolumes
  unfolding discover_archive_volumes get
  archive_volumes name includes excludes w =
      let id = or_text (get name model_to_container) in
      if is_empty includes && is_empty excludes || is_empty id
      then (w, [])
      else (let found = discover_archive_volumes inspect id name includes excludes w in
          (found.0, with_paths found.1))

  -- the body of the loop for a model and its archive, if there is one
  unfoldable pub model_archive_volumes : Bytes → Option Fields → W → W × List ArchiveVolumes
  unfolding archive_volumes to_str_slice lookup
  model_archive_volumes name none w = (w, [])
  model_archive_volumes name (some archive) w =
      archive_volumes name (to_str_slice (lookup (codes "includes") archive))
        (to_str_slice (lookup (codes "excludes") archive)) w

  unfoldable pub discovered_volumes : Fields → W → W × List ArchiveVolumes
  unfolding model_archive_volumes
  discovered_volumes end w = (w, [])
  discovered_volumes (field name (obj mm) models) w =
      let here = model_archive_volumes name (as_map (lookup (codes "archive") mm)) w in
      let rest = discovered_volumes models here.0 in (rest.0, here.1 ++ rest.1)
  discovered_volumes (field name v models) w = discovered_volumes models w

  unfoldable pub process_archive_volumes : Fields → W → W × Fields × List MountDef
  unfolding discovered_volumes apply_archive_volumes
  process_archive_volumes models w =
      let found = discovered_volumes models w in
      let r = apply_archive_volumes (models, []) found.1 in (found.0, r.0, r.1)

  unfoldable pub model_databases : Bytes → Fields → W → W × Fields × List MountDef
  unfolding moved_databases has_sqlite_path get
  model_databases name dbs w =
      let id = or_text (get name model_to_container) in
      if not (has_sqlite_path dbs) || is_empty id
      then (w, dbs, [])
      else (let found = inspect id w in
          let r = moved_databases name dbs found.1 in (found.0, r.0, r.1))

  unfoldable pub model_sqlite : Bytes → Fields → Option Fields → W → W × Fields × List MountDef
  unfolding model_databases insert
  model_sqlite name mm none w = (w, mm, [])
  model_sqlite name mm (some dbs) w =
      let r = model_databases name dbs w in (r.0, insert (codes "databases") (obj r.1) mm, r.2)

  -- The models with the paths of their databases rewritten, and the mounts.
  unfoldable pub process_sqlite_volumes : Fields → W → W × Fields × List MountDef
  unfolding model_sqlite lookup
  process_sqlite_volumes end w = (w, end, [])
  process_sqlite_volumes (field name (obj mm) models) w =
      let here = model_sqlite name mm (as_map (lookup (codes "databases") mm)) w in
      let rest = process_sqlite_volumes models here.0 in
      (rest.0, field name (obj here.1) rest.1, here.2 ++ rest.2)
  process_sqlite_volumes (field name v models) w =
      let rest = process_sqlite_volumes models w in (rest.0, field name v rest.1, rest.2)
