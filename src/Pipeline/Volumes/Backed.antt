-- ===== src/Pipeline/Volumes/Backed.antt =====
-- Which of the mounts of a container backs a path, said of the list of its mounts.
use gobackup_docker.Base.Prefix.{IsTail}
use gobackup_docker.Base.{
  ◌++◌, Bool, ℕ, ◌≤◌, ◌<◌, true, Option, none, some, List, [], ◌∷◌, Bytes, str_eq, str_eq_iff,
  trim_slashes, length, All, All-In, In, ◌≡◌, refl, sym, ap, ◌∙◌, inl, inr, ◌⊎◌, Bool-cases,
  Option-cases, if◌then◌else◌, subst,
}
use gobackup_docker.Base.Dict.{Dict, get, put, get-put, In-get}
use gobackup_docker.Pipeline.Docker.{MountDef, MountPoint}
use gobackup_docker.Pipeline.Volumes.{put_dests, build_dest_map, find_mount_for_path}
use gobackup_docker.Pipeline.Volumes.Lookup.{
  below, depth, AtMost, Backs, Unbacked, Answers, find_mount_lem,
}
use gobackup_docker.Pipeline.Volumes.Moved.{
  moved_path, IsMoved, mount_of, IsMade, build_dest_map-IsDict,
}

-- the place of a mount, without slashes at its end
abbrev pub place_of : MountPoint → Bytes
place_of mp = trim_slashes mp.destination

-- the last mount at a place
abbrev pub last_at : Bytes → List MountPoint → Option MountPoint
last_at k [] = none
last_at k (mp ∷ mps) = elim (last_at k mps) [
  | some later ↦ some later
  | none ↦ if str_eq (place_of mp) k then some mp else none
]

-- no mount is so deep above the path
abbrev pub NoneDeeper : Bytes → ℕ → List MountPoint → Type 0
NoneDeeper p n mps = All (λ (m : MountPoint). depth p (place_of m) ≤ n) mps

-- The mount is the last one at the place, and that is the path, or, where no mount is at the path,
-- the deepest place above it.
abbrev pub BackedBy : Bytes → List MountPoint → MountPoint → Bytes → Type 0
BackedBy p mps mp dst =
    (last_at dst mps ≡ some mp)
    × ((dst ≡ p)
        ⊎ ((last_at p mps ≡ none)
            × (below p dst ≡ true)
            × (0 < length dst)
            × NoneDeeper p (length dst) mps))

-- no mount is at the path, nor above it but at the root
abbrev pub NotBacked : Bytes → List MountPoint → Type 0
NotBacked p mps = (last_at p mps ≡ none) × NoneDeeper p 0 mps

or_else : Option MountPoint → Option MountPoint → Option MountPoint
or_else none b = b
or_else (some a) b = some a

put_dests_lem :
    (k : Bytes) (m : Dict MountPoint) (mps : List MountPoint)
    → get k (put_dests m mps) ≡ or_else (last_at k mps) (get k m)
unfolding put_dests or_else
put_dests_lem k m [] = refl
put_dests_lem k m (mp ∷ mps) = put_dests_lem k (put (place_of mp) mp m) mps ∙ later (last_at k mps)
  where
    later :
        (o : Option MountPoint)
        → or_else o (get k (put (place_of mp) mp m))
          ≡ or_else
              (elim o [ some l ↦ some l | none ↦ if str_eq (place_of mp) k then some mp else none ])
              (get k m)
    later (some l) = refl
    later none =
        rw (get-put (place_of mp) k mp m)
          (elim (Bool-cases (str_eq (place_of mp) k)) [ inl y ↦ rw y refl | inr n ↦ rw n refl ])

-- the map holds the last mount at each place
pub get-build_dest_map :
    (k : Bytes) (mps : List MountPoint) → get k (build_dest_map mps) ≡ last_at k mps
unfolding build_dest_map get or_else
get-build_dest_map k mps = put_dests_lem k [] mps ∙ same (last_at k mps)
  where
    same : (o : Option MountPoint) → or_else o none ≡ o
    same none = refl
    same (some a) = refl

last_at_here :
    (m : MountPoint) (mps : List MountPoint)
    → In m mps
    → (l : MountPoint) × (last_at (place_of m) mps ≡ some l)
last_at_here m [] i = absurd i
last_at_here m (x ∷ mps) i = elim (Option-cases (last_at (place_of m) mps)) [
  | inr (l, e) ↦ (l, rw e refl)
  | inl n ↦ elim i [
    | inl e ↦
        let here = (str_eq_iff (place_of x) (place_of m)).1 (ap place_of (sym e)) in
        (x, rw (n, here) refl)
    | inr j ↦ absurd (cc (n, (last_at_here m mps j).1))
  ]
]

All-of_In :
    (P : MountPoint → Type 0) (mps : List MountPoint)
    → ((m : MountPoint) → In m mps → P m)
    → All P mps
All-of_In P [] h = tt
All-of_In P (m ∷ mps) h = (h m (inl refl), All-of_In P mps (λ x i. h x (inr i)))

AtMost-NoneDeeper :
    (p : Bytes) (n : ℕ) (mps : List MountPoint)
    → AtMost p n (build_dest_map mps)
    → NoneDeeper p n mps
AtMost-NoneDeeper p n mps a = All-of_In _ mps (λ m i.
    let (l, e) = last_at_here m mps i in
    All-In (λ (x : Bytes × MountPoint). depth p x.0 ≤ n) (place_of m, l) (build_dest_map mps) a
      (In-get (place_of m) l (build_dest_map mps) (get-build_dest_map (place_of m) mps ∙ e)))

Backs-BackedBy :
    (p : Bytes) (mps : List MountPoint) (mp : MountPoint) (dst : Bytes)
    → Backs p (build_dest_map mps) mp dst
    → BackedBy p mps mp dst
Backs-BackedBy p mps mp dst (g, inl e) = (sym (get-build_dest_map dst mps) ∙ g, inl e)
Backs-BackedBy p mps mp dst (g, inr (u, b, pos, a)) = (
  sym (get-build_dest_map dst mps) ∙ g,
  inr (sym (get-build_dest_map p mps) ∙ u, b, pos, AtMost-NoneDeeper p (length dst) mps a),
)

module _ (path : Bytes) (mps : List MountPoint) where
  pub found-BackedBy :
      (mp : MountPoint) (dst : Bytes)
      → find_mount_for_path path (build_dest_map mps) ≡ some (mp, dst)
      → BackedBy (trim_slashes path) mps mp dst
  found-BackedBy mp dst h = Backs-BackedBy (trim_slashes path) mps mp dst (
      subst (Answers (trim_slashes path) (build_dest_map mps)) h
        (find_mount_lem path (build_dest_map mps) (build_dest_map-IsDict mps)))

  pub found-NotBacked :
      find_mount_for_path path (build_dest_map mps) ≡ none → NotBacked (trim_slashes path) mps
  found-NotBacked h =
      let a : Unbacked (trim_slashes path) (build_dest_map mps) =
        subst (Answers (trim_slashes path) (build_dest_map mps)) h
          (find_mount_lem path (build_dest_map mps) (build_dest_map-IsDict mps)) in
      (
        sym (get-build_dest_map (trim_slashes path) mps) ∙ a.0,
        AtMost-NoneDeeper (trim_slashes path) 0 mps a.1,
      )

-- The moved path stands to a mount of the list as the path stands to the mount that backs it: the same
-- rest follows the place, which is where the engine mounts the same source.
pub record Leads (mps : List MountPoint) (name : Bytes) (ro : Bool) (out : List MountDef)
    (path : Bytes) : Type 0 where
  pub mp : MountPoint
  pub dst : Bytes
  pub rest : Bytes
  pub backed : BackedBy (trim_slashes path) mps mp dst
  pub path_at : path ≡ dst ++ rest
  pub is_tail : IsTail rest
  pub mounted : In (mount_of name ro mp dst) out
  pub moved_at : moved_path name path ≡ (mount_of name ro mp dst).target ++ rest

-- a mount made for the last mount at a place
abbrev pub MadeOf : List MountPoint → Bytes → Bool → MountDef → Type 0
MadeOf mps name ro m =
    (mp : MountPoint) × (dst : Bytes) × (last_at dst mps ≡ some mp) × (m ≡ mount_of name ro mp dst)

module _ (mps : List MountPoint) (name : Bytes) (ro : Bool) where
  pub IsMoved-Leads :
      (out : List MountDef) (path : Bytes)
      → IsMoved (build_dest_map mps) name ro out path
      → Leads mps name ro out path
  IsMoved-Leads out path m = record {
    mp = m.mp;
    dst = m.dst;
    rest = m.rest;
    backed = found-BackedBy path mps m.mp m.dst m.found;
    path_at = m.path_at;
    is_tail = m.is_tail;
    mounted = m.mounted;
    moved_at = m.moved_at;
  }

  pub All-MadeOf :
      (out : List MountDef)
      → All (IsMade (build_dest_map mps) name ro) out
      → All (MadeOf mps name ro) out
  All-MadeOf [] h = tt
  All-MadeOf (m ∷ out) ((mp, dst, g, e), h) =
      ((mp, dst, sym (get-build_dest_map dst mps) ∙ g, e), All-MadeOf out h)
