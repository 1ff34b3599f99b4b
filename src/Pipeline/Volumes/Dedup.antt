-- ===== src/Pipeline/Volumes/Dedup.antt =====
-- One mount for each target.
use gobackup_docker.Base.{
  All-of, All, ◌⊎◌, In, Bool, true, false, not, ◌&&◌, ◌||◌, List, [], ◌∷◌, Bytes, str_eq,
  str_eq_iff, if◌then◌else◌, ◌≡◌, refl, ◌∙◌, arith, Bool-cases, inl, inr,
}
use gobackup_docker.Pipeline.Docker.{MountDef}
use gobackup_docker.Pipeline.Volumes.{
  has_target, prefer_rw, dedup_into, dedup_loop, dedup_mounts_by_target,
}

-- some mount of the target is writable
pub writable : Bytes → List MountDef → Bool
writable t [] = false
writable t (m ∷ ms) = str_eq m.target t && not m.read_only || writable t ms

-- no two mounts have one target
abbrev pub AreDistinct : List MountDef → Type 0
AreDistinct [] = Unit
AreDistinct (m ∷ ms) = (has_target m.target ms ≡ false) × AreDistinct ms

has_target-dedup_into :
    (t : Bytes) (out : List MountDef) (m : MountDef)
    → has_target t (dedup_into out m) ≡ (has_target t out || str_eq m.target t)
unfolding has_target dedup_into
has_target-dedup_into t [] m = ground arith
has_target-dedup_into t (o ∷ out) m = ground (
  arith,
  str_eq_iff o.target m.target,
  str_eq_iff o.target t,
  str_eq_iff m.target t,
  has_target-dedup_into t out m,
)

writable-dedup_into :
    (t : Bytes) (out : List MountDef) (m : MountDef)
    → writable t (dedup_into out m) ≡ (writable t out || str_eq m.target t && not m.read_only)
unfolding writable dedup_into
writable-dedup_into t [] m = ground arith
writable-dedup_into t (o ∷ out) m = ground (
  arith,
  str_eq_iff o.target m.target,
  str_eq_iff o.target t,
  str_eq_iff m.target t,
  writable-dedup_into t out m,
)

prefer_rw-target :
    (o m : MountDef) → str_eq o.target m.target ≡ true → (prefer_rw o m).target ≡ o.target
prefer_rw-target o m h = ground (arith, str_eq_iff o.target m.target)

dedup_into-AreDistinct :
    (out : List MountDef) (m : MountDef) → AreDistinct out → AreDistinct (dedup_into out m)
unfolding dedup_into
dedup_into-AreDistinct [] m h = (unfold has_target in refl, tt)
dedup_into-AreDistinct (o ∷ out) m h = elim (Bool-cases (str_eq o.target m.target)) [
  | inl y ↦ rw y (rw (prefer_rw-target o m y) h.0, h.1)
  | inr n ↦ rw n (
    has_target-dedup_into o.target out m
        ∙ ground (arith, str_eq_iff o.target m.target, str_eq_iff m.target o.target),
    dedup_into-AreDistinct out m h.1,
  )
]

In-dedup_into :
    (x : MountDef) (out : List MountDef) (m : MountDef)
    → In x (dedup_into out m)
    → In x out ⊎ (x ≡ m)
unfolding dedup_into
In-dedup_into x [] m (inl e) = inr e
In-dedup_into x [] m (inr h) = absurd h
In-dedup_into x (o ∷ out) m h = elim (Bool-cases (str_eq o.target m.target)) [
  | inl y ↦ first (o.read_only && not m.read_only) (rw y at h)
  | inr n ↦ further (rw n at h) (In-dedup_into x out m)
]
  where
    first : (b : Bool) → In x ((if b then m else o) ∷ out) → In x (o ∷ out) ⊎ (x ≡ m)
    first true (inl e) = inr e
    first true (inr i) = inl (inr i)
    first false i = inl i

    further :
        In x (o ∷ dedup_into out m)
        → (In x (dedup_into out m) → In x out ⊎ (x ≡ m))
        → In x (o ∷ out) ⊎ (x ≡ m)
    further (inl e) k = inl (inl e)
    further (inr i) k = elim (k i) [ inl j ↦ inl (inr j) | inr e ↦ inr e ]

-- What the loop keeps, behind the mounts so far.
record Deduped (out mounts result : List MountDef) : Type 0 where
  distinct : AreDistinct result
  targets : (t : Bytes) → has_target t result ≡ (has_target t out || has_target t mounts)
  writes : (t : Bytes) → writable t result ≡ (writable t out || writable t mounts)
  given : (x : MountDef) → In x result → In x out ⊎ In x mounts

or_nil : (b : Bool) → b ≡ (b || false)
or_nil b = ground arith

or_regroup : (a b c d : Bool) → a ≡ (b || c) → (a || d) ≡ (b || (c || d))
or_regroup a b c d h = ground arith

dedup_loop-Deduped :
    (out mounts : List MountDef) → AreDistinct out → Deduped out mounts (dedup_loop out mounts)
unfolding dedup_loop
dedup_loop-Deduped out [] h = record {
  distinct = h;
  targets = λ t. unfold has_target in or_nil (has_target t out);
  writes = λ t. unfold writable in or_nil (writable t out);
  given = λ x i. inl i;
}
dedup_loop-Deduped out (m ∷ mounts) h =
    let next = dedup_loop-Deduped (dedup_into out m) mounts (dedup_into-AreDistinct out m h) in
    record {
      distinct = next.distinct;
      targets = λ t.
          next.targets t ∙ unfold has_target in or_regroup _ _ _ _ (has_target-dedup_into t out m);
      writes =
          λ t. next.writes t ∙ unfold writable in or_regroup _ _ _ _ (writable-dedup_into t out m);
      given = λ x i. earlier x (next.given x i);
    }
  where
    earlier : (x : MountDef) → In x (dedup_into out m) ⊎ In x mounts → In x out ⊎ In x (m ∷ mounts)
    earlier x (inl i) = elim (In-dedup_into x out m i) [ inl j ↦ inl j | inr e ↦ inr (inl e) ]
    earlier x (inr i) = inr (inr i)

-- After the deduplication no two mounts have one target, each target that was asked for has a
-- mount, one of those that were given, and it is writable exactly when one that was given for the
-- target is.
pub dedup_mounts_lem :
    (mounts : List MountDef) (t : Bytes)
    → AreDistinct (dedup_mounts_by_target mounts)
      × (has_target t (dedup_mounts_by_target mounts) ≡ has_target t mounts)
      × (writable t (dedup_mounts_by_target mounts) ≡ writable t mounts)
      × All (λ x. In x mounts) (dedup_mounts_by_target mounts)
unfolding dedup_mounts_by_target
dedup_mounts_lem mounts t =
    let d = dedup_loop-Deduped [] mounts tt in
    (
      d.distinct,
      unfold has_target in d.targets t,
      unfold writable in d.writes t,
      All-of (λ x. In x mounts) _ (λ x i. elim (d.given x i) [ inl n ↦ absurd n | inr j ↦ j ]),
    )
