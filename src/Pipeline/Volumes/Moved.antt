-- ===== src/Pipeline/Volumes/Moved.antt =====
-- Where a moved path leads in the engine.
use mathlib.Core.Path.{subst}
use gobackup_docker.Base.{
  append-nil, All, In, In_left, In_last, All-snoc, Bool, true, none, some, List, [], ◌∷◌, ◌++◌,
  Bytes, str_eq, str_eq_iff, trim_slashes, ◌≡◌, refl, ap, sym, ◌∙◌, arith, Bool-cases, inl, inr,
  append_assoc,
}
use gobackup_docker.Base.Dict.{Dict, get, IsDict, put, put-IsDict}
use gobackup_docker.Base.Prefix.{append_cancel, IsTail, trim_slashes-IsTail, append_of_has_prefix}
use gobackup_docker.Pipeline.Docker.{MountPoint, MountDef}
use gobackup_docker.Pipeline.Volumes.{
  put_dests, build_dest_map, volumes_prefix, find_mount_for_path, resolve_path_mount, mount_source,
  convert_mount_type, has_target, add_mount,
}
use gobackup_docker.Pipeline.Volumes.Lookup.{Backs, Answers, find_mount_lem, below}

IsTail-append : (t u : Bytes) → IsTail t → IsTail u → IsTail (t ++ u)
IsTail-append [] u (inl e) k = k
IsTail-append (c ∷ t) u (inl e) k = cc
IsTail-append [] u (inr (v, e)) k = k
IsTail-append (c ∷ t) u (inr (v, e)) k = inr (v ++ u, ap (λ z. z ++ u) e)

below-IsTail : (p dst : Bytes) → below p dst ≡ true → (t : Bytes) × (p ≡ dst ++ t) × IsTail t
below-IsTail p dst h =
    let (r, e) = append_of_has_prefix p (dst ++ b'/' ∷ []) h in
    (b'/' ∷ r, e ∙ append_assoc dst (b'/' ∷ []) r, inr (r, refl))

Backs-IsTail :
    (p : Bytes) (mounts : Dict MountPoint) (mp : MountPoint) (dst : Bytes)
    → Backs p mounts mp dst
    → (t : Bytes) × (p ≡ dst ++ t) × IsTail t
Backs-IsTail p mounts mp dst (g, inl e) = ([], sym e ∙ sym (append-nil dst), inl refl)
Backs-IsTail p mounts mp dst (g, inr (u, b, pos, w)) = below-IsTail p dst b

-- the entry of the map that backs a path, and what follows its destination in the path
record Split (path : Bytes) (mounts : Dict MountPoint) (mp : MountPoint) (dst : Bytes)
    : Type 0 where
  rest : Bytes
  path_at : path ≡ dst ++ rest
  is_tail : IsTail rest
  entry : get dst mounts ≡ some mp

find-Split :
    (path : Bytes) (mounts : Dict MountPoint) (mp : MountPoint) (dst : Bytes)
    → IsDict mounts
    → find_mount_for_path path mounts ≡ some (mp, dst)
    → Split path mounts mp dst
find-Split path mounts mp dst d h =
    let b : Backs (trim_slashes path) mounts mp dst =
      subst (Answers (trim_slashes path) mounts) h (find_mount_lem path mounts d) in
    let (t, e, k) = Backs-IsTail (trim_slashes path) mounts mp dst b in
    let (u, e', k') = trim_slashes-IsTail path in
    record {
      rest = t ++ u;
      path_at = e' ∙ ap (λ z. z ++ u) e ∙ append_assoc dst t u;
      is_tail = IsTail-append t u k k';
      entry = b.0;
    }

-- the engine's mount for the container's mount `mp` at `dst`
unfoldable pub mount_of : Bytes → Bool → MountPoint → Bytes → MountDef
unfolding mount_source convert_mount_type
mount_of name ro mp dst = record {
  type = convert_mount_type mp.type;
  source = mount_source mp;
  target = volumes_prefix ++ (name ++ dst);
  read_only = ro;
}

abbrev pub moved_path : Bytes → Bytes → Bytes
moved_path name path = volumes_prefix ++ (name ++ path)

module _ (mounts : Dict MountPoint) (name path : Bytes) (ro : Bool) where
  pub resolve_none :
      find_mount_for_path path mounts ≡ none → resolve_path_mount mounts name path ro ≡ none
  unfolding resolve_path_mount
  resolve_none h = rw (h, resolve_path_mount) refl

  pub resolve_some :
      (mp : MountPoint) (dst : Bytes)
      → find_mount_for_path path mounts ≡ some (mp, dst)
      → resolve_path_mount mounts name path ro
        ≡ some (mount_of name ro mp dst, moved_path name path)
  unfolding resolve_path_mount mount_of
  resolve_some mp dst h = rw (h, resolve_path_mount) refl

-- The moved path stands to a mount of the list as the path stands to a mount of the container: the
-- same rest follows the destination, which is where the engine mounts the same source.
pub record IsMoved (mounts : Dict MountPoint) (name : Bytes) (ro : Bool) (out : List MountDef)
    (path : Bytes) : Type 0 where
  pub mp : MountPoint
  pub dst : Bytes
  pub rest : Bytes
  pub found : find_mount_for_path path mounts ≡ some (mp, dst)
  pub entry : get dst mounts ≡ some mp
  pub path_at : path ≡ dst ++ rest
  pub is_tail : IsTail rest
  pub mounted : In (mount_of name ro mp dst) out
  pub moved_at : moved_path name path ≡ (mount_of name ro mp dst).target ++ rest

-- a mount made for an entry of the map
abbrev pub IsMade : Dict MountPoint → Bytes → Bool → MountDef → Type 0
IsMade mounts name ro m =
    (mp : MountPoint) × (dst : Bytes) × (get dst mounts ≡ some mp) × (m ≡ mount_of name ro mp dst)

some_inj : {a b : MountPoint} → some a ≡ some b → a ≡ b
some_inj h = cc

module _ (mounts : Dict MountPoint) (name : Bytes) (ro : Bool) where
  same_mount :
      (m n : MountDef)
      → IsMade mounts name ro m
      → IsMade mounts name ro n
      → m.target ≡ n.target
      → n ≡ m
  unfolding mount_of
  same_mount m n (mp, dst, g, e) (mp', dst', g', e') h =
      let same : dst ≡ dst' = append_cancel name dst dst' (
        append_cancel volumes_prefix (name ++ dst) (name ++ dst')
          (ap (λ (z : MountDef). z.target) (sym e) ∙ h ∙ ap (λ (z : MountDef). z.target) e')) in
      let same_mp : some mp ≡ some mp' = sym g ∙ ap (λ z. get z mounts) same ∙ g' in
      e'
      ∙ ap (λ z. mount_of name ro z dst') (some_inj (sym same_mp))
      ∙ ap (λ z. mount_of name ro mp z) (sym same)
      ∙ sym e

  In-has_target :
      (out : List MountDef) (m : MountDef)
      → All (IsMade mounts name ro) out
      → IsMade mounts name ro m
      → has_target m.target out ≡ true
      → In m out
  unfolding has_target
  In-has_target [] m a k h = cc
  In-has_target (o ∷ out) m a k h = elim (Bool-cases (str_eq o.target m.target)) [
    | inl y ↦ inl (same_mount o m a.0 k ((str_eq_iff o.target m.target).0 y))
    | inr n ↦ inr (In-has_target out m a.1 k (ground (arith, h, n)))
  ]

  pub In-add_mount :
      (out : List MountDef) (m : MountDef)
      → All (IsMade mounts name ro) out
      → IsMade mounts name ro m
      → In m (add_mount out m) × All (IsMade mounts name ro) (add_mount out m)
  In-add_mount out m a k = elim (Bool-cases (has_target m.target out)) [
    | inl y ↦ rw y (In-has_target out m a k y, a)
    | inr n ↦ rw n (In_last m out, All-snoc (IsMade mounts name ro) m out a k)
  ]

-- a mount stays
pub add_mount_keeps : (out : List MountDef) (m n : MountDef) → In n out → In n (add_mount out m)
add_mount_keeps out m n i = elim (Bool-cases (has_target m.target out)) [
  | inl y ↦ rw y i
  | inr k ↦ rw k (In_left n out (m ∷ []) i)
]

module _ (mounts : Dict MountPoint) (d : IsDict mounts) (name path : Bytes) (ro : Bool)
    (mp : MountPoint) (dst : Bytes) (h : find_mount_for_path path mounts ≡ some (mp, dst)) where
  pub found-IsMade : IsMade mounts name ro (mount_of name ro mp dst)
  found-IsMade = (mp, dst, (find-Split path mounts mp dst d h).entry, refl)

  pub found-IsMoved :
      (out : List MountDef) → In (mount_of name ro mp dst) out → IsMoved mounts name ro out path
  unfolding mount_of
  found-IsMoved out i =
      let s = find-Split path mounts mp dst d h in
      record {
        mp = mp;
        dst = dst;
        rest = s.rest;
        found = h;
        entry = s.entry;
        path_at = s.path_at;
        is_tail = s.is_tail;
        mounted = i;
        moved_at =
            ap (λ z. volumes_prefix ++ (name ++ z)) s.path_at
            ∙ ap (λ z. volumes_prefix ++ z) (sym (append_assoc name dst s.rest))
            ∙ sym (append_assoc volumes_prefix (name ++ dst) s.rest);
      }

put_dests-IsDict :
    (m : Dict MountPoint) (mps : List MountPoint) → IsDict m → IsDict (put_dests m mps)
unfolding put_dests
put_dests-IsDict m [] h = h
put_dests-IsDict m (mp ∷ mps) h =
    put_dests-IsDict (put (trim_slashes mp.destination) mp m) mps
      (put-IsDict (trim_slashes mp.destination) mp m h)

pub build_dest_map-IsDict : (mps : List MountPoint) → IsDict (build_dest_map mps)
unfolding build_dest_map
build_dest_map-IsDict mps = put_dests-IsDict [] mps tt
