-- ===== src/Render/Merge/Prune.antt =====
-- A pruned map, key by key, and the opt-out of an inherited subtree.
use gobackup_docker.Base.{
  Bool, true, false, Option, none, some, Bytes, str_eq, str_eq_iff, if◌then◌else◌, ◌≡◌, refl, ap,
  ◌∙◌, Bool-cases, inl, inr,
}
use gobackup_docker.Tree.{Value, str, obj, Fields, end, field, lookup, IsMaps}
use gobackup_docker.Labels.{opt_out}
use gobackup_docker.Render.Merge.{is_opt_out, prune_opt_out, prune_value, deep_merge}
use gobackup_docker.Render.Merge.Overlay.{overlaid, lookup-deep_merge, deep_merge-IsMaps}

-- what a key holds after the pruning, from what it held
abbrev pub pruned : Option Value → Option Value
pruned none = none
pruned (some v) = if is_opt_out v then none else some (prune_value v)

-- Every key of a pruned map: the sentinel's key is gone, and any other keeps its value, pruned in
-- its turn if it is a map.
pub lookup-prune :
    (m : Fields) (k : Bytes) → IsMaps m → lookup k (prune_opt_out m) ≡ pruned (lookup k m)
unfolding prune_opt_out lookup
lookup-prune end k h = refl
lookup-prune (field j v m) k h = elim (Bool-cases (is_opt_out v)) [
  | inl y ↦
      rw y (lookup-prune m k h.2 ∙ dropped (str_eq j k) y (λ e. rw (← (str_eq_iff j k).0 e) h.0))
  | inr n ↦ rw n (kept (str_eq j k) n (lookup-prune m k h.2))
]
  where
    dropped :
        (t : Bool)
        → is_opt_out v ≡ true
        → (t ≡ true → lookup k m ≡ none)
        → pruned (lookup k m) ≡ pruned (if t then some v else lookup k m)
    dropped true y g = rw (g refl, y)
    dropped false y g = refl

    kept :
        (t : Bool)
        → is_opt_out v ≡ false
        → lookup k (prune_opt_out m) ≡ pruned (lookup k m)
        → (if t then some (prune_value v) else lookup k (prune_opt_out m))
          ≡ pruned (if t then some v else lookup k m)
    kept true n ih = rw n
    kept false n ih = ih

-- No map, at any depth below maps, holds the sentinel.
abbrev mutual
  pub IsPruned : Value → Type 0
  IsPruned (str s) = str_eq s opt_out ≡ false
  IsPruned (obj m) = ArePruned m
  IsPruned _ = Unit

  pub ArePruned : Fields → Type 0
  ArePruned end = Unit
  ArePruned (field k v m) = IsPruned v × ArePruned m

mutual
  unfolding prune_opt_out

  prune-ArePruned : (m : Fields) → ArePruned (prune_opt_out m)
  prune-ArePruned end = tt
  prune-ArePruned (field k v m) = elim (Bool-cases (is_opt_out v)) [
    | inl y ↦ rw y (prune-ArePruned m)
    | inr n ↦ rw n (prune_value-IsPruned v n, prune-ArePruned m)
  ]

  prune_value-IsPruned : (v : Value) → is_opt_out v ≡ false → IsPruned (prune_value v)
  prune_value-IsPruned (str s) h = h
  prune_value-IsPruned (obj m) h = prune-ArePruned m
  prune_value-IsPruned _ h = tt

-- A label tree over a profile, in whose maps no key stands twice, pruned, key by key: the key holds the overlaid value, pruned in its
-- turn, and nothing if that value is "!none"; and nowhere below is a sentinel left.
pub opt_out_lem :
    (base overlay : Fields) (k : Bytes)
    → IsMaps base
    → IsMaps overlay
    → (lookup k (prune_opt_out (deep_merge base overlay))
        ≡ pruned (overlaid (lookup k base) (lookup k overlay)))
      × ArePruned (prune_opt_out (deep_merge base overlay))
opt_out_lem base overlay k h w = (
  lookup-prune (deep_merge base overlay) k (deep_merge-IsMaps base overlay h w)
      ∙ ap pruned (lookup-deep_merge base overlay k w),
  prune-ArePruned (deep_merge base overlay),
)
