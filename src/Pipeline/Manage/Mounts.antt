-- ===== src/Pipeline/Manage/Mounts.antt =====
-- The mounts of a created engine against the mounts that the next run asks for.
use gobackup_docker.Base.{
  ==_iff, All-map, str_eq, length-append, str_eq_iff, inr, inl, Bool-cases, arith, refl, ◌≡◌, ◌+◌,
  ℕ, Bool, true, not, ◌&&◌, ◌||◌, List, [], ◌∷◌, ◌++◌, Bytes, length, All, if◌then◌else◌,
}
use gobackup_docker.Pipeline.Docker.{MountPoint, MountDef}
use gobackup_docker.Labels.{one_of}
use gobackup_docker.Pipeline.Manage.{
  is_managed_mount, mount_point_to_def, unmanaged, merge_mounts, mounts_equal, all_wanted, def_key,
  def_keys, point_key,
}

-- The mounts that an inspection reports of a container created with the given ones, in any order.
pub data Reports : List MountPoint → List MountDef → Type 0 where
  nothing : Reports [] []
  next :
      {ds : List MountDef} {points : List MountPoint} (point : MountPoint) (xs ys : List MountDef)
      → ds ≡ xs ++ mount_point_to_def point ∷ ys
      → Reports points (xs ++ ys)
      → Reports (point ∷ points) ds

abbrev count : Bool → ℕ
count b = if b then 1 else 0

abbrev managed_count : List MountDef → ℕ
managed_count [] = 0
managed_count (d ∷ ds) = count (is_managed_mount d.target) + managed_count ds

managed_count-append :
    (xs ys : List MountDef) → managed_count (xs ++ ys) ≡ managed_count xs + managed_count ys
managed_count-append [] ys = omega arith
managed_count-append (x ∷ xs) ys = omega (arith, managed_count-append xs ys)

managed_count-unmanaged : (points : List MountPoint) → managed_count (unmanaged points) ≡ 0
unfolding unmanaged mount_point_to_def
managed_count-unmanaged [] = refl
managed_count-unmanaged (mp ∷ points) = elim (Bool-cases (is_managed_mount mp.destination)) [
  | inl y ↦ rw y (managed_count-unmanaged points)
  | inr n ↦ rw (n, n) (omega (arith, managed_count-unmanaged points))
]

managed_count_all :
    (ms : List MountDef)
    → All (λ (d : MountDef). is_managed_mount d.target ≡ true) ms
    → managed_count ms ≡ length ms
managed_count_all [] h = refl
managed_count_all (m ∷ ms) h = rw h.0 (omega (arith, managed_count_all ms h.1))

-- every reported mount is managed or kept
length-unmanaged :
    {points : List MountPoint} {ds : List MountDef}
    → Reports points ds
    → length (unmanaged points) + managed_count ds ≡ length points
unfolding unmanaged mount_point_to_def
length-unmanaged nothing = omega arith
length-unmanaged (next {points = points} point xs ys e r) =
    let ih = length-unmanaged r in
    let split = managed_count-append xs ys in
    rw (e, managed_count-append xs (mount_point_to_def point ∷ ys))
      (elim (Bool-cases (is_managed_mount point.destination)) [
        | inl y ↦ rw y (omega (arith, ih, split))
        | inr n ↦ rw n (omega (arith, ih, split))
      ])

-- A mount that is asked for is managed only if its key is wanted.
abbrev IsWanted : List Bytes → MountDef → Type 0
IsWanted want d = (not (is_managed_mount d.target) || one_of (def_key d) want) ≡ true

All-append_left : (P : MountDef → Type 0) (xs ys : List MountDef) → All P (xs ++ ys) → All P xs
All-append_left P [] ys h = tt
All-append_left P (x ∷ xs) ys h = (h.0, All-append_left P xs ys h.1)

All-append_right : (P : MountDef → Type 0) (xs ys : List MountDef) → All P (xs ++ ys) → All P ys
All-append_right P [] ys h = h
All-append_right P (x ∷ xs) ys h = All-append_right P xs ys h.1

All-append :
    (P : MountDef → Type 0) (xs ys : List MountDef) → All P xs → All P ys → All P (xs ++ ys)
All-append P [] ys h k = k
All-append P (x ∷ xs) ys h k = (h.0, All-append P xs ys h.1 k)

and_intro : (a b : Bool) → a ≡ true → b ≡ true → (a && b) ≡ true
and_intro a b h k = ground arith

or_left : (a b : Bool) → a ≡ true → (a || b) ≡ true
or_left a b h = ground arith

or_right : (a b : Bool) → b ≡ true → (a || b) ≡ true
or_right a b h = ground arith

kept_more :
    (point : MountPoint) (points : List MountPoint) (k : Bytes)
    → one_of k (def_keys (unmanaged points)) ≡ true
    → one_of k (def_keys (unmanaged (point ∷ points))) ≡ true
unfolding unmanaged
kept_more point points k h = elim (Bool-cases (is_managed_mount point.destination)) [
  | inl y ↦ rw y h
  | inr n ↦ rw n (unfold def_keys one_of in or_right _ _ h)
]

wanted_here :
    (want : List Bytes) (point : MountPoint) (points : List MountPoint)
    → IsWanted want (mount_point_to_def point)
    → ((k : Bytes) → one_of k (def_keys (unmanaged (point ∷ points))) ≡ true → one_of k want ≡ true)
    → one_of (point_key point) want ≡ true
unfolding mount_point_to_def
wanted_here want point points w k = elim (Bool-cases (is_managed_mount point.destination)) [
  | inl y ↦ rw y at w
  | inr n ↦ k (point_key point) (
      unfold unmanaged in
      rw n (unfold def_keys one_of mount_point_to_def in or_left _ _ ((str_eq_iff _ _).1 refl)))
]

all_wanted_lem :
    {points : List MountPoint} {ds : List MountDef} (want : List Bytes)
    → Reports points ds
    → All (IsWanted want) ds
    → ((k : Bytes) → one_of k (def_keys (unmanaged points)) ≡ true → one_of k want ≡ true)
    → all_wanted want points ≡ true
unfolding all_wanted
all_wanted_lem want nothing h k = refl
all_wanted_lem want (next {points = points} point xs ys e r) h k =
    let P = IsWanted want in
    let h' : All P (xs ++ mount_point_to_def point ∷ ys) = rw e at h in
    let here = All-append_right P xs (mount_point_to_def point ∷ ys) h' in
    let rest =
      All-append P xs ys (All-append_left P xs (mount_point_to_def point ∷ ys) h') here.1 in
    and_intro _ _ (wanted_here want point points here.0 k)
      (all_wanted_lem want r rest (λ j i. k j (kept_more point points j i)))

-- keys of the second part are wanted, and so are those of the first
one_of-def_keys_left :
    (k : Bytes) (xs ys : List MountDef)
    → one_of k (def_keys xs) ≡ true
    → one_of k (def_keys (xs ++ ys)) ≡ true
unfolding def_keys one_of
one_of-def_keys_left k [] ys h = cc
one_of-def_keys_left k (x ∷ xs) ys h = elim (Bool-cases (str_eq k (def_key x))) [
  | inl y ↦ or_left _ _ y
  | inr n ↦ or_right _ _ (one_of-def_keys_left k xs ys (rw n at h))
]

IsWanted-more :
    (k : Bytes) (want : List Bytes) (d : MountDef) → IsWanted want d → IsWanted (k ∷ want) d
unfolding one_of
IsWanted-more k want d h = ground arith

IsWanted-keys : (ms : List MountDef) → All (IsWanted (def_keys ms)) ms
unfolding def_keys one_of
IsWanted-keys [] = tt
IsWanted-keys (m ∷ ms) = (
  or_right _ _ (or_left _ _ ((str_eq_iff _ _).1 refl)),
  All-map _ _ ms (IsWanted-more (def_key m) (def_keys ms)) (IsWanted-keys ms),
)

IsWanted-behind :
    (xs ms ds : List MountDef)
    → All (IsWanted (def_keys ms)) ds
    → All (IsWanted (def_keys (xs ++ ms))) ds
unfolding def_keys
IsWanted-behind [] ms ds h = h
IsWanted-behind (x ∷ xs) ms ds h =
    All-map _ _ ds (IsWanted-more (def_key x) (def_keys (xs ++ ms))) (IsWanted-behind xs ms ds h)

unmanaged_unwanted :
    (want : List Bytes) (points : List MountPoint) → All (IsWanted want) (unmanaged points)
unfolding unmanaged mount_point_to_def
unmanaged_unwanted want [] = tt
unmanaged_unwanted want (mp ∷ points) = elim (Bool-cases (is_managed_mount mp.destination)) [
  | inl y ↦ rw y (unmanaged_unwanted want points)
  | inr n ↦ rw n (rw n refl, unmanaged_unwanted want points)
]

-- The mounts of an engine that was created with the mounts merged for an older one are those merged
-- for it anew, if the mounts to add are managed ones.
pub mounts_equal-merge_mounts :
    (old new : List MountPoint) (ms : List MountDef)
    → All (λ (d : MountDef). is_managed_mount d.target ≡ true) ms
    → Reports new (merge_mounts old ms)
    → mounts_equal new (merge_mounts new ms) ≡ true
unfolding merge_mounts mounts_equal
mounts_equal-merge_mounts old new ms h r =
    let n : length (unmanaged new ++ ms) ≡ length new = omega (
      arith,
      length-append (unmanaged new) ms,
      length-unmanaged r,
      managed_count-append (unmanaged old) ms,
      managed_count-unmanaged old,
      managed_count_all ms h,
    ) in
    let want = def_keys (unmanaged new ++ ms) in
    rw (n, (==_iff (length new) (length new)).1 refl)
      (all_wanted_lem want r
        (All-append (IsWanted want) (unmanaged old) ms (unmanaged_unwanted want old)
          (IsWanted-behind (unmanaged new) ms ms (IsWanted-keys ms)))
        (λ k. one_of-def_keys_left k (unmanaged new) ms))
