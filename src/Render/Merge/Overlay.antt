-- ===== src/Render/Merge/Overlay.antt =====
-- A merged map, key by key.
use gobackup_docker.Base.{
  Bool, true, false, Option, none, some, Bytes, str_eq, str_eq_iff, if◌then◌else◌, ◌≡◌, refl, ap,
  ◌∙◌,
}
use gobackup_docker.Tree.{
  Value, arr, obj, Items, nil, cons, Fields, end, field, lookup, insert, as_map, IsMap, IsMaps,
}
use gobackup_docker.Tree.Laws.{AllMaps, lookup-IsMap, as_map-IsMaps, lookup-insert, insert-IsMaps}
use gobackup_docker.Render.Merge.{
  deep_copy, deep_copy_items, deep_copy_fields, deep_merge, merge_entry,
}

-- A copy is the value that was copied.
mutual
  unfolding deep_copy

  deep_copy_same : (v : Value) → deep_copy v ≡ v
  deep_copy_same (obj m) = ap obj (deep_copy_fields_same m)
  deep_copy_same (arr xs) = ap arr (deep_copy_items_same xs)
  deep_copy_same _ = refl

  deep_copy_items_same : (xs : Items) → deep_copy_items xs ≡ xs
  deep_copy_items_same nil = refl
  deep_copy_items_same (cons x xs) = rw (deep_copy_same x, deep_copy_items_same xs)

  pub deep_copy_fields_same : (m : Fields) → deep_copy_fields m ≡ m
  deep_copy_fields_same end = refl
  deep_copy_fields_same (field k v m) = rw (deep_copy_same v, deep_copy_fields_same m)

pub deep_copy_fields_lem : (m : Fields) → deep_copy_fields m ≡ m
deep_copy_fields_lem m = deep_copy_fields_same m

-- the value of an overlay entry over the map that the base has under its key
abbrev pub over : Option Fields → Value → Value
over (some bm) (obj om) = obj (deep_merge bm om)
over _ v = v

over-entry : (b : Option Fields) (v : Value) → merge_entry b v ≡ over b v
unfolding deep_merge
over-entry none (obj om) = deep_copy_same (obj om)
over-entry none v = deep_copy_same v
over-entry (some bm) (obj om) = refl
over-entry (some bm) v = deep_copy_same v

-- what a key holds in the merged map, from what it holds in the base and in the overlay
abbrev pub overlaid : Option Value → Option Value → Option Value
overlaid b none = b
overlaid b (some v) = some (over (as_map b) v)

overlaid-step :
    (t : Bool) (b c b' o : Option Value) (v e : Value)
    → b' ≡ (if t then some e else b)
    → (t ≡ true → o ≡ none)
    → (t ≡ true → c ≡ b)
    → e ≡ over (as_map c) v
    → overlaid b' o ≡ overlaid b (if t then some v else o)
overlaid-step true b c b' o v e p q r s = rw (p, q refl, s, r refl)
overlaid-step false b c b' o v e p q r s = rw p

-- Every key of a merged map, for an overlay in whose maps no key stands twice: where both sides
-- hold a map the two are merged, else the overlay's value wins, and a key that the overlay lacks
-- keeps the base's.
pub lookup-deep_merge :
    (base overlay : Fields) (k : Bytes)
    → IsMaps overlay
    → lookup k (deep_merge base overlay) ≡ overlaid (lookup k base) (lookup k overlay)
unfolding deep_merge lookup
lookup-deep_merge base end k h = refl
lookup-deep_merge base (field j v overlay) k h =
    let e = merge_entry (as_map (lookup j base)) v in
    let base' = insert j e base in
    lookup-deep_merge base' overlay k h.2
    ∙ overlaid-step (str_eq j k) (lookup k base) (lookup j base) (lookup k base') (lookup k overlay)
        v e (lookup-insert j k e base) (λ y. rw (← (str_eq_iff j k).0 y) h.0)
        (λ y. rw ((str_eq_iff j k).0 y)) (over-entry (as_map (lookup j base)) v)

-- Merging keeps each key once, at every depth.
mutual
  unfolding deep_merge

  deep_merge-IsMaps' :
      (base overlay : Fields) → IsMaps base → IsMaps overlay → IsMaps (deep_merge base overlay)
  deep_merge-IsMaps' base end h w = h
  deep_merge-IsMaps' base (field k v overlay) h w =
      deep_merge-IsMaps' (insert k (merge_entry (as_map (lookup k base)) v) base) overlay
        (insert-IsMaps k _ base
          (merge_entry-IsMap (as_map (lookup k base)) v
            (as_map-IsMaps (lookup k base) (lookup-IsMap k base h)) w.1)
          h)
        w.2

  merge_entry-IsMap :
      (b : Option Fields) (v : Value) → AllMaps b → IsMap v → IsMap (merge_entry b v)
  merge_entry-IsMap none (obj om) h w = rw (deep_copy_same (obj om)) w
  merge_entry-IsMap none v h w = rw (deep_copy_same v) w
  merge_entry-IsMap (some bm) (obj om) h w = deep_merge-IsMaps' bm om h w
  merge_entry-IsMap (some bm) v h w = rw (deep_copy_same v) w

pub deep_merge-IsMaps :
    (base overlay : Fields) → IsMaps base → IsMaps overlay → IsMaps (deep_merge base overlay)
deep_merge-IsMaps base overlay h w = deep_merge-IsMaps' base overlay h w
