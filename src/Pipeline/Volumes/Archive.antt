-- ===== src/Pipeline/Volumes/Archive.antt =====
-- The paths of an archive, moved.
use gobackup_docker.Pipeline.Volumes.Backed.{
  Leads, IsMoved-Leads, All-MadeOf, NotBacked, found-NotBacked, MadeOf,
}
use gobackup_docker.Base.{
  append_assoc, ◌∙◌, trim_slashes, append-nil, sym, All, In, true, false, Option, none, some, List,
  [], ◌∷◌, ◌++◌, Bytes, ◌≡◌, ◌⊎◌, inl, inr, refl, Option-cases, is_empty,
}
use gobackup_docker.Base.Dict.{Dict, IsDict}
use gobackup_docker.Pipeline.Docker.{MountPoint, MountDef, InspectResult}
use gobackup_docker.Pipeline.Volumes.{
  found_volumes, find_mount_for_path, transform_includes, add_mount, ArchiveVolumes, build_dest_map,
  discover_archive_volumes,
}
use gobackup_docker.Pipeline.Volumes.Moved.{
  mount_of, moved_path, resolve_none, resolve_some, IsMoved, IsMade, In-add_mount, add_mount_keeps,
  found-IsMade, found-IsMoved, build_dest_map-IsDict,
}

module _ (mounts : Dict MountPoint) (name : Bytes) where
  -- the paths that have a mount, moved and in their order
  abbrev pub Handles : List MountDef → List Bytes → List Bytes → Type 0
  Handles out [] done = done ≡ []
  Handles out (p ∷ paths) done =
      ((find_mount_for_path p mounts ≡ none) × Handles out paths done)
      ⊎ ((rest : List Bytes) × (done ≡ moved_path name p ∷ rest)
          × IsMoved mounts name true out p
          × Handles out paths rest)

  record Transformed (out : List MountDef) (done includes : List Bytes)
      (r : List MountDef × List Bytes) : Type 0 where
    made : All (IsMade mounts name true) r.0
    keeps : (m : MountDef) → In m out → In m r.0
    behind : List Bytes
    paths : r.1 ≡ done ++ behind
    handled : Handles r.0 includes behind

  transform_lem :
      (out : List MountDef) (done includes : List Bytes)
      → IsDict mounts
      → All (IsMade mounts name true) out
      → Transformed out done includes (transform_includes mounts name (out, done) includes)
  unfolding transform_includes
  transform_lem out done [] d a = record {
    made = a;
    keeps = λ m i. i;
    behind = [];
    paths = sym (append-nil done);
    handled = refl;
  }
  transform_lem out done (p ∷ includes) d a = elim (Option-cases (find_mount_for_path p mounts)) [
    | inl n ↦
        let l = transform_lem out done includes d a in
        rw (resolve_none mounts name p true n) (record {
          made = l.made;
          keeps = l.keeps;
          behind = l.behind;
          paths = l.paths;
          handled = inl (n, l.handled);
        })
    | inr ((mp, dst), e) ↦
        let md = mount_of name true mp dst in
        let added =
          In-add_mount mounts name true out md a (found-IsMade mounts d name p true mp dst e) in
        let l =
          transform_lem (add_mount out md) (done ++ moved_path name p ∷ []) includes d added.1 in
        rw (resolve_some mounts name p true mp dst e) (record {
          made = l.made;
          keeps = λ m i. l.keeps m (add_mount_keeps out md m i);
          behind = moved_path name p ∷ l.behind;
          paths = l.paths ∙ append_assoc done (moved_path name p ∷ []) l.behind;
          handled = inr (
            l.behind,
            refl,
            found-IsMoved mounts d name p true mp dst e _ (l.keeps md added.0),
            l.handled,
          );
        })
  ]

module _ (mps : List MountPoint) (name : Bytes) where
  -- Of the paths, those that a mount of the container backs, moved and in their order; the others are
  -- dropped.
  abbrev pub AreMoved : List MountDef → List Bytes → List Bytes → Type 0
  AreMoved out [] done = done ≡ []
  AreMoved out (p ∷ paths) done =
      (NotBacked (trim_slashes p) mps × AreMoved out paths done)
      ⊎ ((rest : List Bytes) × (done ≡ moved_path name p ∷ rest)
          × Leads mps name true out p
          × AreMoved out paths rest)

  Handles-AreMoved :
      (out : List MountDef) (paths done : List Bytes)
      → Handles (build_dest_map mps) name out paths done
      → AreMoved out paths done
  Handles-AreMoved out [] done h = h
  Handles-AreMoved out (p ∷ paths) done (inl (n, h)) =
      inl (found-NotBacked p mps n, Handles-AreMoved out paths done h)
  Handles-AreMoved out (p ∷ paths) done (inr (rest, e, m, h)) =
      inr (rest, e, IsMoved-Leads mps name true out p m, Handles-AreMoved out paths rest h)

module _ {W : Type 0} (inspect : Bytes → W → W × Option InspectResult) (id name : Bytes)
    (w : W) where
  -- Where the container can be inspected and there are includes, the includes of the result are, in
  -- their order, those of the given ones that a mount of the container backs, each moved to a path that
  -- leads, below one of the mounts returned, to what the path led to in the container: below the
  -- last mount at the path, or else at the deepest place above it but the root. The mounts returned
  -- are all read-only, and the excludes are those given.
  pub discover_archive_lem :
      (info : InspectResult) (includes excludes : List Bytes)
      → (inspect id w).1 ≡ some info
      → is_empty includes ≡ false
      → (av : ArchiveVolumes) × ((discover_archive_volumes inspect id name includes excludes w).1
          ≡ some av)
        × AreMoved info.mounts name av.mounts includes av.includes
        × All (MadeOf info.mounts name true) av.mounts
        × (av.excludes ≡ excludes)
  unfolding discover_archive_volumes found_volumes
  discover_archive_lem info includes excludes e n =
      let mounts = build_dest_map info.mounts in
      let l = transform_lem mounts name [] [] includes (build_dest_map-IsDict info.mounts) tt in
      let r = transform_includes mounts name ([], []) includes in
      let av : ArchiveVolumes = record {
        model_name = name;
        mounts = r.0;
        includes = r.1;
        excludes = excludes;
      } in
      (
        av,
        rw (n, e) refl,
        rw l.paths (Handles-AreMoved info.mounts name r.0 includes l.behind l.handled),
        All-MadeOf info.mounts name true r.0 l.made,
        refl,
      )
