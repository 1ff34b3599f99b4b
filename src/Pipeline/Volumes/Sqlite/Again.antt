-- ===== src/Pipeline/Volumes/Sqlite/Again.antt =====
-- Sqlite databases that were moved are not moved again.
use gobackup_docker.Base.{
  Bool, true, false, Option, none, some, List, [], ◌++◌, ◌||◌, Bytes, codes, is_empty, has_prefix,
  ◌≡◌, inl, inr, refl, ap, ◌∙◌, if◌then◌else◌,
}
use gobackup_docker.Base.Dict.{Dict}
use gobackup_docker.Base.Prefix.{has_prefix-append}
use gobackup_docker.Tree.{Value, str, obj, Fields, end, field, lookup, insert, as_string}
use gobackup_docker.Tree.Laws.{lookup-insert_self}
use gobackup_docker.Pipeline.Docker.{MountPoint, MountDef}
use gobackup_docker.Pipeline.Volumes.{
  volumes_prefix, sqlite_path, is_sqlite, sqlite_resolve, set_db_path, sqlite_mounts_for_model,
  build_dest_map,
}
use gobackup_docker.Pipeline.Volumes.Moved.{moved_path, resolve_none}
use gobackup_docker.Pipeline.Volumes.Sqlite.{
  path_of, IsDone, AreDone, resolve_path_none, resolve_path_some, sqlite_done,
}

-- a path below the prefix is none to move
no_path :
    (b : Bool) (o : Option Bytes) (p : Bytes)
    → o ≡ some (volumes_prefix ++ p)
    → (if b
        then elim o [
          | none ↦ none
          | some q ↦ if is_empty q || has_prefix q volumes_prefix then none else some q
        ]
        else none)
      ≡ none
no_path false o p h = refl
no_path true o p h = rw h (rw (has_prefix-append volumes_prefix p) refl)

path_of-set_db_path :
    (db : Fields) (p : Bytes) → path_of (set_db_path (obj db) (volumes_prefix ++ p)) ≡ none
unfolding sqlite_path
path_of-set_db_path db p =
    let db' = insert (codes "path") (str (volumes_prefix ++ p)) db in
    no_path (is_sqlite db') (as_string (lookup (codes "path") db')) p
      (rw (lookup-insert_self (codes "path") (str (volumes_prefix ++ p)) db) refl)

module _ (mounts : Dict MountPoint) (name : Bytes) where
  done_none :
      (out : List MountDef) (v v' : Value)
      → IsDone mounts name out v v'
      → sqlite_resolve mounts name v' ≡ none
  done_none out v v' (inl (e, inl n)) = rw e (resolve_path_none mounts name v n)
  done_none out v v' (inl (e, inr (p, h, n))) =
      rw e (resolve_path_some mounts name v p h ∙ resolve_none mounts name p false n)
  done_none out (obj db) v' (inr (p, h, m, e)) = rw e (
      resolve_path_none mounts name (set_db_path (obj db) (moved_path name p))
        (path_of-set_db_path db (name ++ p)))
  done_none out v v' (inr (p, h, m, e)) = cc

  again :
      (out : List MountDef) (dbs dbs' : Fields)
      → AreDone mounts name out dbs dbs'
      → sqlite_mounts_for_model mounts name [] dbs' ≡ (dbs', [])
  unfolding sqlite_mounts_for_model
  again out end end d = refl
  again out (field id v dbs) (field id' v' dbs') d =
      rw (done_none out v v' d.1)
        (ap (λ (r : Fields × List MountDef). (field id' v' r.0, r.1)) (again out dbs dbs' d.2))
  again out end (field id' v' dbs') d = absurd d
  again out (field id v dbs) end d = absurd d

-- Moving the databases of a model again, over the same mounts of its container, changes nothing and
-- asks for no mount.
pub sqlite_mounts_again :
    (mps : List MountPoint) (name : Bytes) (dbs : Fields)
    → let mounts = build_dest_map mps in
      let moved = (sqlite_mounts_for_model mounts name [] dbs).0 in
      sqlite_mounts_for_model mounts name [] moved ≡ (moved, [])
sqlite_mounts_again mps name dbs =
    again (build_dest_map mps) name _ dbs _ (sqlite_done mps name dbs)
