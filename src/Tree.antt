-- ===== src/Tree.antt =====
-- The dynamic values that the program passes around as `any`: decoded YAML documents and label
-- trees. A Go map is the list of its entries in the order in which a `range` over it visits them;
-- the order is the runtime's choice, so theorems are stated through `lookup`.
pub mod Laws
use gobackup_docker.Base.{
  ℕ, Bool, true, false, ◌&&◌, Option, none, some, List, [], ◌∷◌, ◌≡◌, Bytes, str_eq, if◌then◌else◌,
}

-- a Go `int`; `negsuc n` is -(n + 1)
pub data ℤ : Type 0 where
  pos : ℕ → ℤ
  negsuc : ℕ → ℤ

-- `strs` is a `[]string`, which no decoder produces and the program itself stores; `other` is any
-- scalar that the program only hands through (a float, a time, nil).
mutual
  pub data Value : Type 0 where
    str : Bytes → Value
    boolean : Bool → Value
    int : ℤ → Value
    other : ℕ → Value
    strs : List Bytes → Value
    arr : Items → Value
    obj : Fields → Value

  pub data Items : Type 0 where
    nil : Items
    cons : Value → Items → Items

  pub data Fields : Type 0 where
    end : Fields
    field : Bytes → Value → Fields → Fields

-- m[k]
unfoldable pub lookup : Bytes → Fields → Option Value
lookup k end = none
lookup k (field j v m) = if str_eq j k then some v else lookup k m

-- m[k] = v
unfoldable pub insert : Bytes → Value → Fields → Fields
insert k v end = field k v end
insert k v (field j w m) = if str_eq j k then field j v m else field j w (insert k v m)

-- len(m)
unfoldable pub size : Fields → ℕ
size end = 0
size (field k v m) = ℕ.suc (size m)

unfoldable pub keys : Fields → List Bytes
keys end = []
keys (field k v m) = k ∷ keys m

-- v, ok := x.(map[string]any) on a map access; a missing key is no map
abbrev pub as_map : Option Value → Option Fields
as_map (some (obj m)) = some m
as_map _ = none

-- s, ok := x.(string)
abbrev pub as_string : Option Value → Option Bytes
as_string (some (str s)) = some s
as_string _ = none

-- A key is visited once: the entries of a Go map.
abbrev mutual
  pub IsMap : Value → Type 0
  IsMap (obj m) = IsMaps m
  IsMap (arr xs) = AreMaps xs
  IsMap _ = Unit

  pub AreMaps : Items → Type 0
  AreMaps nil = Unit
  AreMaps (cons x xs) = IsMap x × AreMaps xs

  pub IsMaps : Fields → Type 0
  IsMaps end = Unit
  IsMaps (field k v m) = (lookup k m ≡ none) × IsMap v × IsMaps m
