-- ===== src/Pipeline/Volumes.antt =====
-- internal/pipeline/volumes.go: which volumes of a source container the engine needs, and where.
pub mod Lookup
pub mod Dedup
pub mod Moved
pub mod Backed
pub mod Archive
pub mod Sqlite
use gobackup_docker.Base.{
  ℕ, Bool, true, false, not, ◌&&◌, ◌||◌, Option, none, some, List, [], ◌∷◌, ◌++◌, ltb, length,
  Bytes, codes, str_eq, has_prefix, trim_slashes, is_empty, is_some, if◌then◌else◌,
}
use gobackup_docker.Base.Dict.{Dict, get, put}
use gobackup_docker.Labels.{one_of}
use gobackup_docker.Tree.{
  Value, str, obj, strs, Fields, end, field, lookup, insert, as_map, as_string,
}
use gobackup_docker.Pipeline.Docker.{
  MountPoint, MountDef, InspectResult, type_bind, type_tmpfs, type_volume,
}

pub record ArchiveVolumes : Type 0 where
  pub model_name : Bytes
  pub mounts : List MountDef
  pub includes : List Bytes
  pub excludes : List Bytes

abbrev pub volumes_prefix : Bytes
volumes_prefix = codes "/volumes/"

unfoldable pub put_dests : Dict MountPoint → List MountPoint → Dict MountPoint
unfolding put trim_slashes
put_dests m [] = m
put_dests m (mp ∷ mounts) = put_dests (put (trim_slashes mp.destination) mp m) mounts

unfoldable pub build_dest_map : List MountPoint → Dict MountPoint
unfolding put_dests
build_dest_map mounts = put_dests [] mounts

abbrev pub best_len : Option (MountPoint × Bytes) → ℕ
best_len none = 0
best_len (some (mp, dst)) = length dst

-- the loop for the longest destination above the path
unfoldable pub longest :
    Bytes → Option (MountPoint × Bytes) → Dict MountPoint → Option (MountPoint × Bytes)
longest path best [] = best
longest path best ((dst, mp) ∷ mounts) =
    longest path
      (if has_prefix path (dst ++ b'/' ∷ []) && ltb (best_len best) (length dst)
        then some (mp, dst)
        else best)
      mounts

-- `none` is a path that no mount backs
unfoldable pub find_mount_for_path : Bytes → Dict MountPoint → Option (MountPoint × Bytes)
unfolding longest
find_mount_for_path path mounts =
    let p = trim_slashes path in
    elim (get p mounts) [ some mp ↦ some (mp, p) | none ↦ longest p none mounts ]

unfoldable pub mount_source : MountPoint → Bytes
mount_source mp = if is_empty mp.name then mp.source else mp.name

unfoldable pub convert_mount_type : Bytes → Bytes
convert_mount_type t = if str_eq t type_bind || str_eq t type_tmpfs then t else type_volume

-- the mount in the engine, and the path there
unfoldable pub resolve_path_mount :
    Dict MountPoint → Bytes → Bytes → Bool → Option (MountDef × Bytes)
unfolding find_mount_for_path mount_source convert_mount_type
resolve_path_mount dest_map model_name path read_only = elim (find_mount_for_path path dest_map) [
  | none ↦ none
  | some (mnt, mount_dest) ↦ some (
    record {
      type = convert_mount_type mnt.type;
      source = mount_source mnt;
      target = volumes_prefix ++ (model_name ++ mount_dest);
      read_only = read_only;
    },
    volumes_prefix ++ (model_name ++ path),
  )
]

-- `seen` holds the targets of the mounts so far: a mount is added unless its target is there
unfoldable pub has_target : Bytes → List MountDef → Bool
has_target t [] = false
has_target t (m ∷ ms) = str_eq m.target t || has_target t ms

abbrev pub add_mount : List MountDef → MountDef → List MountDef
add_mount mounts md = if has_target md.target mounts then mounts else mounts ++ md ∷ []

-- the loop over the includes, with the mounts and the paths so far
unfoldable pub transform_includes :
    Dict MountPoint → Bytes → List MountDef × List Bytes → List Bytes → List MountDef × List Bytes
unfolding resolve_path_mount has_target
transform_includes dest_map model_name acc [] = acc
transform_includes dest_map model_name (mounts, done) (p ∷ includes) =
    transform_includes dest_map model_name
      (elim (resolve_path_mount dest_map model_name p true) [
        | none ↦ (mounts, done)
        | some (md, tp) ↦ (add_mount mounts md, done ++ tp ∷ [])
      ])
      includes

-- what the inspection of the container gave, for its volumes
unfoldable pub found_volumes :
    Bytes → List Bytes → List Bytes → Option InspectResult → Option ArchiveVolumes
unfolding transform_includes build_dest_map
found_volumes model_name includes excludes none = none
found_volumes model_name includes excludes (some info) =
    let r = transform_includes (build_dest_map info.mounts) model_name ([], []) includes in
    some (record { model_name = model_name; mounts = r.0; includes = r.1; excludes = excludes })

module _ {W : Type 0} (inspect : Bytes → W → W × Option InspectResult) where
  -- `none` is a source container that cannot be inspected
  unfoldable pub discover_archive_volumes :
      Bytes → Bytes → List Bytes → List Bytes → W → W × Option ArchiveVolumes
  unfolding found_volumes
  discover_archive_volumes container_id model_name includes excludes w =
      if is_empty includes
      then (w, some (record { model_name = model_name; mounts = []; includes = []; excludes = [] }))
      else (let found = inspect container_id w in
          (found.0, found_volumes model_name includes excludes found.1))

-- db["type"] == "sqlite"
abbrev pub is_sqlite : Fields → Bool
is_sqlite db = elim (as_string (lookup (codes "type") db)) [
  | none ↦ false
  | some t ↦ str_eq t (codes "sqlite")
]

-- the path of a sqlite database that is still to be moved
unfoldable pub sqlite_path : Fields → Option Bytes
unfolding has_prefix lookup
sqlite_path db =
    if is_sqlite db
    then elim (as_string (lookup (codes "path") db)) [
      | none ↦ none
      | some p ↦ if is_empty p || has_prefix p volumes_prefix then none else some p
    ]
    else none

abbrev pub sqlite_resolve : Dict MountPoint → Bytes → Value → Option (MountDef × Bytes)
sqlite_resolve dest_map model_name (obj db) = elim (sqlite_path db) [
  | none ↦ none
  | some p ↦ resolve_path_mount dest_map model_name p false
]
sqlite_resolve dest_map model_name v = none

abbrev pub set_db_path : Value → Bytes → Value
set_db_path (obj db) tp = obj (insert (codes "path") (str tp) db)
set_db_path v tp = v

-- The databases with their paths rewritten, and the mounts, behind those so far.
unfoldable pub sqlite_mounts_for_model :
    Dict MountPoint → Bytes → List MountDef → Fields → Fields × List MountDef
unfolding sqlite_path resolve_path_mount has_target
sqlite_mounts_for_model dest_map model_name mounts end = (end, mounts)
sqlite_mounts_for_model dest_map model_name mounts (field id dbv dbs) =
    let found = sqlite_resolve dest_map model_name dbv in
    let rest =
      sqlite_mounts_for_model dest_map model_name
        (elim found [ none ↦ mounts | some (md, tp) ↦ add_mount mounts md ]) dbs in
    (field id (elim found [ none ↦ dbv | some (md, tp) ↦ set_db_path dbv tp ]) rest.0, rest.1)

-- out[i] = m at the entry with the target, if read-write is to win there
abbrev pub prefer_rw : MountDef → MountDef → MountDef
prefer_rw old m = if old.read_only && not m.read_only then m else old

unfoldable pub dedup_into : List MountDef → MountDef → List MountDef
dedup_into [] m = m ∷ []
dedup_into (o ∷ out) m =
    if str_eq o.target m.target then prefer_rw o m ∷ out else o ∷ dedup_into out m

unfoldable pub dedup_loop : List MountDef → List MountDef → List MountDef
unfolding dedup_into
dedup_loop out [] = out
dedup_loop out (m ∷ mounts) = dedup_loop (dedup_into out m) mounts

unfoldable pub dedup_mounts_by_target : List MountDef → List MountDef
unfolding dedup_loop
dedup_mounts_by_target mounts = dedup_loop [] mounts

abbrev archive_of : Fields → Fields
archive_of model = elim (as_map (lookup (codes "archive") model)) [ none ↦ end | some a ↦ a ]

-- archive[k] = paths, unless there are none
abbrev pub set_paths : Bytes → List Bytes → Fields → Fields
set_paths k paths archive = if is_empty paths then archive else insert k (strs paths) archive

unfoldable pub with_archive_paths : ArchiveVolumes → Fields → Fields
unfolding lookup insert
with_archive_paths av model =
    insert (codes "archive")
      (obj (
        set_paths (codes "excludes") av.excludes
          (set_paths (codes "includes") av.includes (archive_of model))))
      model

-- m.Source + ":" + m.Target
abbrev pub dedup_key : MountDef → Bytes
dedup_key m = m.source ++ (b':' ∷ m.target)

unfoldable pub has_key : Bytes → List MountDef → Bool
has_key k [] = false
has_key k (m ∷ ms) = str_eq (dedup_key m) k || has_key k ms

unfoldable pub add_by_key : List MountDef → List MountDef → List MountDef
unfolding has_key
add_by_key out [] = out
add_by_key out (m ∷ ms) = add_by_key (if has_key (dedup_key m) out then out else out ++ m ∷ []) ms

-- The models with the transformed paths, and the mounts in their order, behind those so far.
unfoldable pub apply_archive_volumes :
    Fields × List MountDef → List ArchiveVolumes → Fields × List MountDef
unfolding with_archive_paths add_by_key
apply_archive_volumes acc [] = acc
apply_archive_volumes (models, out) (av ∷ volumes) =
    apply_archive_volumes
      (if is_empty av.includes && is_empty av.excludes
        then (models, out)
        else elim (as_map (lookup av.model_name models)) [
          | none ↦ (models, out)
          | some model ↦ (
            insert av.model_name (obj (with_archive_paths av model)) models,
            add_by_key out av.mounts,
          )
        ])
      volumes
