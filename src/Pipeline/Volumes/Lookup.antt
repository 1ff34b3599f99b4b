-- ===== src/Pipeline/Volumes/Lookup.antt =====
-- The mount that backs a path is the deepest one above it, in whatever order the mounts are visited.
use gobackup_docker.Base.{
  All-In, All, ℕ, ◌<◌, ◌≤◌, Bool, true, Option, none, some, [], ◌∷◌, ◌++◌, ltb, length, Bytes,
  has_prefix, trim_slashes, if◌then◌else◌, ◌≡◌, refl, ap, sym, ◌∙◌, arith, Bool-cases, Option-cases,
  inl, inr, ◌⊎◌, In,
}
use gobackup_docker.Base.Dict.{Dict, get, IsDict, In-get, get_of_In}
use gobackup_docker.Pipeline.Docker.{MountPoint}
use gobackup_docker.Pipeline.Volumes.{best_len, longest, find_mount_for_path}

-- the path lies below the destination
abbrev pub below : Bytes → Bytes → Bool
below path dst = has_prefix path (dst ++ b'/' ∷ [])

-- the length of a destination above the path
abbrev pub depth : Bytes → Bytes → ℕ
depth path dst = if below path dst then length dst else 0

-- every mount of the list is at most so deep
abbrev pub AtMost : Bytes → ℕ → Dict MountPoint → Type 0
AtMost path n mounts = All (λ (e : Bytes × MountPoint). depth path e.0 ≤ n) mounts

record LongestMount (path : Bytes) (best : Option (MountPoint × Bytes)) (rest : Dict MountPoint)
    (r : Option (MountPoint × Bytes)) : Type 0 where
  grows : best_len best ≤ best_len r
  covers : AtMost path (best_len r) rest
  taken :
      (r ≡ best)
      ⊎ ((dst : Bytes) × (mp : MountPoint) × (r ≡ some (mp, dst))
          × In (dst, mp) rest
          × (below path dst ≡ true)
          × (0 < length dst))

module _ (path d : Bytes) (v : MountPoint) (best r : Option (MountPoint × Bytes))
    (rest : Dict MountPoint) where
  Longest-take :
      below path d ≡ true
      → best_len best < length d
      → LongestMount path (some (v, d)) rest r
      → LongestMount path best ((d, v) ∷ rest) r
  Longest-take y lt l = record {
    grows = omega (arith, l.grows);
    covers = (rw y l.grows, l.covers);
    taken = elim l.taken [
      | inl e ↦ inr (d, v, e, inl refl, y, omega arith)
      | inr (dst, mp, e, i, b, pos) ↦ inr (dst, mp, e, inr i, b, pos)
    ];
  }

  Longest-skip :
      depth path d ≤ best_len best
      → LongestMount path best rest r
      → LongestMount path best ((d, v) ∷ rest) r
  Longest-skip no_gain l = record {
    grows = l.grows;
    covers = (omega (arith, l.grows), l.covers);
    taken = elim l.taken [
      | inl e ↦ inl e
      | inr (dst, mp, e, i, b, pos) ↦ inr (dst, mp, e, inr i, b, pos)
    ];
  }

longest_lem :
    (path : Bytes) (best : Option (MountPoint × Bytes)) (rest : Dict MountPoint)
    → LongestMount path best rest (longest path best rest)
unfolding longest
longest_lem path best [] = record { grows = omega arith; covers = tt; taken = inl refl }
longest_lem path best ((d, v) ∷ rest) = elim (Bool-cases (below path d)) [
  | inr n ↦
      rw n (Longest-skip path d v best _ rest (rw n (omega arith)) (longest_lem path best rest))
  | inl y ↦ rw y (elim (Bool-cases (ltb (best_len best) (length d))) [
    | inl lt ↦
        rw lt
          (Longest-take path d v best _ rest y (ground arith) (longest_lem path (some (v, d)) rest))
    | inr ge ↦
        rw ge (Longest-skip path d v best _ rest (rw y (ground arith)) (longest_lem path best rest))
  ])
]

-- The mount `mp` at `dst` backs the path: it stands at the path itself, or, where none does, it is
-- the deepest above the path.
abbrev pub Backs : Bytes → Dict MountPoint → MountPoint → Bytes → Type 0
Backs p mounts mp dst =
    (get dst mounts ≡ some mp)
    × ((dst ≡ p)
        ⊎ ((get p mounts ≡ none)
            × (below p dst ≡ true)
            × (0 < length dst)
            × AtMost p (length dst) mounts))

-- No mount stands at the path, nor above it except at the root.
abbrev pub Unbacked : Bytes → Dict MountPoint → Type 0
Unbacked p mounts = (get p mounts ≡ none) × AtMost p 0 mounts

-- the answer of the search is right
abbrev pub Answers : Bytes → Dict MountPoint → Option (MountPoint × Bytes) → Type 0
Answers p mounts none = Unbacked p mounts
Answers p mounts (some (mp, dst)) = Backs p mounts mp dst

longest-Answers :
    (p : Bytes) (mounts : Dict MountPoint) (r : Option (MountPoint × Bytes))
    → IsDict mounts
    → get p mounts ≡ none
    → LongestMount p none mounts r
    → Answers p mounts r
longest-Answers p mounts none h e l = (e, l.covers)
longest-Answers p mounts (some (mp, dst)) h e l = elim l.taken [
  | inl x ↦ cc
  | inr (dst', mp', x, i, b, pos) ↦
      let same : (mp ≡ mp') × (dst ≡ dst') = ground arith in
      rw (same.0, same.1) (get_of_In dst' mp' mounts h i, inr (e, b, pos, rw (← same.1) l.covers))
]

find_here :
    (path : Bytes) (mounts : Dict MountPoint) {mp : MountPoint}
    → get (trim_slashes path) mounts ≡ some mp
    → find_mount_for_path path mounts ≡ some (mp, trim_slashes path)
unfolding find_mount_for_path
find_here path mounts e = rw (e, find_mount_for_path)

find_above :
    (path : Bytes) (mounts : Dict MountPoint)
    → get (trim_slashes path) mounts ≡ none
    → find_mount_for_path path mounts ≡ longest (trim_slashes path) none mounts
unfolding find_mount_for_path
find_above path mounts e = rw (e, find_mount_for_path)

-- In a map in which no destination stands twice, the mount found for a path, given up to slashes at
-- its end, backs it: it is the one at the path, or else one at the longest destination above it,
-- a mount at the root aside; none is found only where no mount is at the path and none above it but
-- one at the root.
pub find_mount_lem :
    (path : Bytes) (mounts : Dict MountPoint)
    → IsDict mounts
    → Answers (trim_slashes path) mounts (find_mount_for_path path mounts)
find_mount_lem path mounts h =
    let p = trim_slashes path in
    elim (Option-cases (get p mounts)) [
      | inr (mp, e) ↦ rw (find_here path mounts e) (e, inl refl)
      | inl e ↦
          rw (find_above path mounts e)
            (longest-Answers p mounts (longest p none mounts) h e (longest_lem p none mounts))
    ]

-- two texts that one text continues after a slash are equal if they are equally long
below_unique : (p d e : Bytes) → below p d ≡ true → below p e ≡ true → length d ≡ length e → d ≡ e
unfolding has_prefix
below_unique p [] [] h k l = refl
below_unique p [] (y ∷ e) h k l = absurd (omega arith)
below_unique p (x ∷ d) [] h k l = absurd (omega arith)
below_unique [] (x ∷ d) (y ∷ e) h k l = cc
below_unique (c ∷ p) (x ∷ d) (y ∷ e) h k l = ground (arith, below_unique p d e)

depth_of_get :
    (p d : Bytes) (mp : MountPoint) (n : ℕ) (mounts : Dict MountPoint)
    → AtMost p n mounts
    → get d mounts ≡ some mp
    → below p d ≡ true
    → length d ≤ n
depth_of_get p d mp n mounts h g b =
    rw b at
      (All-In (λ (e : Bytes × MountPoint). depth p e.0 ≤ n) (d, mp) mounts h (In-get d mp mounts g))

Backs-Unbacked :
    (p : Bytes) (m n : Dict MountPoint) (mp : MountPoint) (dst : Bytes)
    → ((k : Bytes) → get k m ≡ get k n)
    → Unbacked p m
    → Backs p n mp dst
    → ⊥
Backs-Unbacked p m n mp dst same (e, c) (g, inl x) = cc (same p, x)
Backs-Unbacked p m n mp dst same (e, c) (g, inr (u, b, pos, w)) =
    omega (arith, depth_of_get p dst mp 0 m c (same dst ∙ g) b)

Backs-dest :
    (p : Bytes) (m n : Dict MountPoint) (mp mp' : MountPoint) (dst dst' : Bytes)
    → ((k : Bytes) → get k m ≡ get k n)
    → Backs p m mp dst
    → Backs p n mp' dst'
    → dst ≡ dst'
Backs-dest p m n mp mp' dst dst' same (g, inl x) (g', inl x') = x ∙ sym x'
Backs-dest p m n mp mp' dst dst' same (g, inl x) (g', inr (u, b, pos, w)) = absurd (cc (same p, x))
Backs-dest p m n mp mp' dst dst' same (g, inr (u, b, pos, w)) (g', inl x) = absurd (cc (same p, x))
Backs-dest p m n mp mp' dst dst' same (g, inr (u, b, pos, w)) (g', inr (u', b', pos', w')) =
    below_unique p dst dst' b b' (
      omega (
        arith,
        depth_of_get p dst' mp' (length dst) m w (same dst' ∙ g') b',
        depth_of_get p dst mp (length dst') n w' (sym (same dst) ∙ g) b,
      ))

Answers-unique :
    (p : Bytes) (m n : Dict MountPoint) (r s : Option (MountPoint × Bytes))
    → ((k : Bytes) → get k m ≡ get k n)
    → Answers p m r
    → Answers p n s
    → r ≡ s
Answers-unique p m n none none same a b = refl
Answers-unique p m n none (some (mp, dst)) same a b = absurd (Backs-Unbacked p m n mp dst same a b)
Answers-unique p m n (some (mp, dst)) none same a b =
    absurd (Backs-Unbacked p n m mp dst (λ k. sym (same k)) b a)
Answers-unique p m n (some (mp, dst)) (some (mp', dst')) same a b =
    let e = Backs-dest p m n mp mp' dst dst' same a b in
    let f : some mp ≡ some mp' = sym a.0 ∙ same dst ∙ ap (λ k. get k n) e ∙ b.0 in ground arith

-- Which mount is found depends on what the map, in which no destination stands twice, holds and not
-- on the order in which it is visited.
pub find_mount_ext :
    (path : Bytes) (m n : Dict MountPoint)
    → IsDict m
    → IsDict n
    → ((k : Bytes) → get k m ≡ get k n)
    → find_mount_for_path path m ≡ find_mount_for_path path n
find_mount_ext path m n h k same =
    Answers-unique (trim_slashes path) m n _ _ same (find_mount_lem path m h)
      (find_mount_lem path n k)
