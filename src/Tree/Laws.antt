-- ===== src/Tree/Laws.antt =====
-- The laws of map access and assignment.
use gobackup_docker.Base.{
  none, Option, ◌∙◌, inr, inl, Bool-cases, false, some, ◌≡◌, refl, arith, Bytes, str_eq, str_eq_iff,
  if◌then◌else◌,
}
use gobackup_docker.Tree.{obj, as_map, IsMaps, IsMap, Value, Fields, end, field, lookup, insert}

pub str_eq_sym : (a b : Bytes) → str_eq a b ≡ str_eq b a
str_eq_sym a b = ground (arith, str_eq_iff a b, str_eq_iff b a)

pub lookup-insert :
    (k j : Bytes) (v : Value) (m : Fields)
    → lookup j (insert k v m) ≡ (if str_eq k j then some v else lookup j m)
unfolding lookup insert
lookup-insert k j v end = refl
lookup-insert k j v (field i w m) =
    ground (arith, str_eq_iff k j, str_eq_iff i k, str_eq_iff i j, lookup-insert k j v m)

pub lookup-insert_self : (k : Bytes) (v : Value) (m : Fields) → lookup k (insert k v m) ≡ some v
lookup-insert_self k v m = ground (arith, lookup-insert k k v m, str_eq_iff k k)

pub lookup-insert_ne :
    (k j : Bytes) (v : Value) (m : Fields)
    → str_eq k j ≡ false
    → lookup j (insert k v m) ≡ lookup j m
lookup-insert_ne k j v m h = rw (lookup-insert k j v m, h)

-- Assignment keeps each key once.
pub insert-IsMaps :
    (k : Bytes) (v : Value) (m : Fields) → IsMap v → IsMaps m → IsMaps (insert k v m)
unfolding insert lookup
insert-IsMaps k v end h w = (refl, h, tt)
insert-IsMaps k v (field j u m) h w = elim (Bool-cases (str_eq j k)) [
  | inl y ↦ rw y (w.0, h, w.2)
  | inr n ↦
      rw n (lookup-insert k j v m ∙ rw (str_eq_sym k j ∙ n) w.0, w.1, insert-IsMaps k v m h w.2)
]

-- what a map holds is well formed
abbrev pub HoldsMap : Option Value → Type 0
HoldsMap none = Unit
HoldsMap (some v) = IsMap v

abbrev pub AllMaps : Option Fields → Type 0
AllMaps none = Unit
AllMaps (some m) = IsMaps m

pub lookup-IsMap : (k : Bytes) (m : Fields) → IsMaps m → HoldsMap (lookup k m)
unfolding lookup
lookup-IsMap k end h = tt
lookup-IsMap k (field j v m) h = elim (Bool-cases (str_eq j k)) [
  | inl y ↦ rw y h.1
  | inr n ↦ rw n (lookup-IsMap k m h.2)
]

pub as_map-IsMaps : (o : Option Value) → HoldsMap o → AllMaps (as_map o)
as_map-IsMaps (some (obj m)) h = h
as_map-IsMaps _ h = tt
