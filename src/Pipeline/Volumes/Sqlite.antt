-- ===== src/Pipeline/Volumes/Sqlite.antt =====
-- The paths of sqlite databases, moved.
pub mod Again
use gobackup_docker.Pipeline.Volumes.Backed.{
  Leads, All-MadeOf, IsMoved-Leads, NotBacked, found-NotBacked, MadeOf,
}
use gobackup_docker.Base.{
  trim_slashes, ◌∙◌, All, In, false, Option, none, some, List, [], Bytes, ◌≡◌, ◌⊎◌, inl, inr, refl,
  Option-cases,
}
use gobackup_docker.Base.Dict.{Dict, IsDict}
use gobackup_docker.Tree.{Value, obj, Fields, end, field}
use gobackup_docker.Pipeline.Docker.{MountPoint, MountDef}
use gobackup_docker.Pipeline.Volumes.{
  find_mount_for_path, resolve_path_mount, sqlite_path, sqlite_resolve, set_db_path,
  sqlite_mounts_for_model, add_mount, build_dest_map,
}
use gobackup_docker.Pipeline.Volumes.Moved.{
  mount_of, moved_path, resolve_none, resolve_some, IsMoved, IsMade, In-add_mount, add_mount_keeps,
  found-IsMade, found-IsMoved, build_dest_map-IsDict,
}

-- the path of a database that is to be moved
abbrev pub path_of : Value → Option Bytes
path_of (obj db) = sqlite_path db
path_of v = none

module _ (mounts : Dict MountPoint) (name : Bytes) where
  -- A database whose path is not to be moved or has no mount stays; any other has the moved path.
  abbrev pub IsDone : List MountDef → Value → Value → Type 0
  IsDone out v v' =
      ((v' ≡ v)
        × ((path_of v ≡ none)
            ⊎ ((p : Bytes) × (path_of v ≡ some p) × (find_mount_for_path p mounts ≡ none))))
      ⊎ ((p : Bytes) × (path_of v ≡ some p)
          × IsMoved mounts name false out p
          × (v' ≡ set_db_path v (moved_path name p)))

  abbrev pub AreDone : List MountDef → Fields → Fields → Type 0
  AreDone out end end = Unit
  AreDone out (field id v dbs) (field id' v' dbs') =
      (id' ≡ id) × IsDone out v v' × AreDone out dbs dbs'
  AreDone out _ _ = ⊥

  record Rewritten (out : List MountDef) (dbs : Fields) (r : Fields × List MountDef) : Type 0 where
    made : All (IsMade mounts name false) r.1
    keeps : (m : MountDef) → In m out → In m r.1
    done : AreDone r.1 dbs r.0

  pub resolve_path_none : (v : Value) → path_of v ≡ none → sqlite_resolve mounts name v ≡ none
  resolve_path_none (obj db) h = rw (h, sqlite_resolve) refl
  resolve_path_none v h = refl

  pub resolve_path_some :
      (v : Value) (p : Bytes)
      → path_of v ≡ some p
      → sqlite_resolve mounts name v ≡ resolve_path_mount mounts name p false
  resolve_path_some (obj db) p h = rw (h, sqlite_resolve) refl
  resolve_path_some v p h = cc

  stays :
      (out : List MountDef) (id : Bytes) (v : Value) (dbs : Fields)
      → sqlite_resolve mounts name v ≡ none
      → ((path_of v ≡ none)
          ⊎ ((p : Bytes) × (path_of v ≡ some p) × (find_mount_for_path p mounts ≡ none)))
      → Rewritten out dbs (sqlite_mounts_for_model mounts name out dbs)
      → Rewritten out (field id v dbs) (sqlite_mounts_for_model mounts name out (field id v dbs))
  unfolding sqlite_mounts_for_model
  stays out id v dbs h why l =
      rw h (record { made = l.made; keeps = l.keeps; done = (refl, inl (refl, why), l.done) })

  moves :
      (out : List MountDef) (id : Bytes) (v : Value) (dbs : Fields) (p : Bytes) (mp : MountPoint)
      (dst : Bytes)
      → IsDict mounts
      → path_of v ≡ some p
      → find_mount_for_path p mounts ≡ some (mp, dst)
      → In (mount_of name false mp dst) (add_mount out (mount_of name false mp dst))
      → Rewritten
          (add_mount out (mount_of name false mp dst))
          dbs
          (sqlite_mounts_for_model mounts name (add_mount out (mount_of name false mp dst)) dbs)
      → Rewritten out (field id v dbs) (sqlite_mounts_for_model mounts name out (field id v dbs))
  unfolding sqlite_mounts_for_model
  moves out id v dbs p mp dst d h e i l =
      let md = mount_of name false mp dst in
      rw (resolve_path_some v p h ∙ resolve_some mounts name p false mp dst e) (record {
        made = l.made;
        keeps = λ m j. l.keeps m (add_mount_keeps out md m j);
        done = (
          refl,
          inr (p, h, found-IsMoved mounts d name p false mp dst e _ (l.keeps md i), refl),
          l.done,
        );
      })

  sqlite_lem :
      (out : List MountDef) (dbs : Fields)
      → IsDict mounts
      → All (IsMade mounts name false) out
      → Rewritten out dbs (sqlite_mounts_for_model mounts name out dbs)
  unfolding sqlite_mounts_for_model
  sqlite_lem out end d a = record { made = a; keeps = λ m i. i; done = tt }
  sqlite_lem out (field id v dbs) d a = elim (Option-cases (path_of v)) [
    | inl n ↦ stays out id v dbs (resolve_path_none v n) (inl n) (sqlite_lem out dbs d a)
    | inr (p, h) ↦ elim (Option-cases (find_mount_for_path p mounts)) [
      | inl n ↦
          stays out id v dbs (resolve_path_some v p h ∙ resolve_none mounts name p false n)
            (inr (p, h, n)) (sqlite_lem out dbs d a)
      | inr ((mp, dst), e) ↦
          let md = mount_of name false mp dst in
          let added =
            In-add_mount mounts name false out md a (found-IsMade mounts d name p false mp dst e) in
          moves out id v dbs p mp dst d h e added.0 (sqlite_lem (add_mount out md) dbs d added.1)
    ]
  ]

module _ (mps : List MountPoint) (name : Bytes) where
  -- A database whose path is not to be moved or has no mount stays; any other has the moved path.
  abbrev pub IsRewritten : List MountDef → Value → Value → Type 0
  IsRewritten out v v' =
      ((v' ≡ v)
        × ((path_of v ≡ none)
            ⊎ ((p : Bytes) × (path_of v ≡ some p) × NotBacked (trim_slashes p) mps)))
      ⊎ ((p : Bytes) × (path_of v ≡ some p)
          × Leads mps name false out p
          × (v' ≡ set_db_path v (moved_path name p)))

  abbrev pub AreRewritten : List MountDef → Fields → Fields → Type 0
  AreRewritten out end end = Unit
  AreRewritten out (field id v dbs) (field id' v' dbs') =
      (id' ≡ id) × IsRewritten out v v' × AreRewritten out dbs dbs'
  AreRewritten out _ _ = ⊥

  IsDone-IsRewritten :
      (out : List MountDef) (v v' : Value)
      → IsDone (build_dest_map mps) name out v v'
      → IsRewritten out v v'
  IsDone-IsRewritten out v v' (inl (e, inl n)) = inl (e, inl n)
  IsDone-IsRewritten out v v' (inl (e, inr (p, h, n))) =
      inl (e, inr (p, h, found-NotBacked p mps n))
  IsDone-IsRewritten out v v' (inr (p, h, m, e)) =
      inr (p, h, IsMoved-Leads mps name false out p m, e)

  AreDone-AreRewritten :
      (out : List MountDef) (dbs dbs' : Fields)
      → AreDone (build_dest_map mps) name out dbs dbs'
      → AreRewritten out dbs dbs'
  AreDone-AreRewritten out end end h = tt
  AreDone-AreRewritten out end (field id' v' dbs') h = absurd h
  AreDone-AreRewritten out (field id v dbs) end h = absurd h
  AreDone-AreRewritten out (field id v dbs) (field id' v' dbs') (e, d, h) =
      (e, IsDone-IsRewritten out v v' d, AreDone-AreRewritten out dbs dbs' h)

pub sqlite_done :
    (mps : List MountPoint) (name : Bytes) (dbs : Fields)
    → let r = sqlite_mounts_for_model (build_dest_map mps) name [] dbs in
      AreDone (build_dest_map mps) name r.1 dbs r.0
sqlite_done mps name dbs =
    (sqlite_lem (build_dest_map mps) name [] dbs (build_dest_map-IsDict mps) tt).done

-- Over the mounts of a container, each database stays where it stood, and it stays as it was if it
-- is no sqlite database with a path still to be moved or if no mount but one at the root backs the
-- path; any other has a path that leads, below one of the mounts returned, to what its path led to in
-- the container: below the last mount at the path, or else at the deepest place above it; these
-- mounts are all writable.
pub sqlite_mounts_lem :
    (mps : List MountPoint) (name : Bytes) (dbs : Fields)
    → let r = sqlite_mounts_for_model (build_dest_map mps) name [] dbs in
      AreRewritten mps name r.1 dbs r.0 × All (MadeOf mps name false) r.1
sqlite_mounts_lem mps name dbs =
    let l = sqlite_lem (build_dest_map mps) name [] dbs (build_dest_map-IsDict mps) tt in
    (AreDone-AreRewritten mps name _ dbs _ l.done, All-MadeOf mps name false _ l.made)
