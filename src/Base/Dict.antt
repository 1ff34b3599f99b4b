-- ===== src/Base/Dict.antt =====
-- Go maps with string keys as association lists, in the order in which `range` visits them.
use gobackup_docker.Base.{inr, inl, Bool-cases, In}
use mathlib.Core.Option.{Option, none, some}
use mathlib.Core.List.{List, [], ◌∷◌}
use mathlib.Core.Path.{◌≡◌, refl, ◌∙◌}
use native.Mathlib.Omega.{arith}
use gobackup_docker.Base.Flow.{if◌then◌else◌}
use gobackup_docker.Base.Text.{Bytes, str_eq, str_eq_iff}

abbrev pub Dict : Type 0 → Type 0
Dict V = List (Bytes × V)

module _ {V : Type 0} where
  -- m[k]
  unfoldable pub get : Bytes → Dict V → Option V
  get k [] = none
  get k ((j, v) ∷ m) = if str_eq j k then some v else get k m

  -- m[k] = v
  unfoldable pub put : Bytes → V → Dict V → Dict V
  put k v [] = (k, v) ∷ []
  put k v ((j, w) ∷ m) = if str_eq j k then (k, v) ∷ m else (j, w) ∷ put k v m

  -- each key stands once
  abbrev pub IsDict : Dict V → Type 0
  IsDict [] = Unit
  IsDict ((k, v) ∷ m) = (get k m ≡ none) × IsDict m

  pub get-put :
      (k j : Bytes) (v : V) (m : Dict V)
      → get j (put k v m) ≡ (if str_eq k j then some v else get j m)
  unfolding get put
  get-put k j v [] = refl
  get-put k j v ((i, w) ∷ m) =
      ground (arith, str_eq_iff k j, str_eq_iff i k, str_eq_iff i j, get-put k j v m)

module _ {V : Type 0} where
  -- an entry that a key has stands in the list
  pub In-get : (k : Bytes) (v : V) (m : Dict V) → get k m ≡ some v → In (k, v) m
  unfolding get
  In-get k v [] h = cc
  In-get k v ((j, w) ∷ m) h = elim (Bool-cases (str_eq j k)) [
    | inl y ↦ inl (ground (arith, str_eq_iff j k))
    | inr n ↦ inr (In-get k v m (ground arith))
  ]

  pub get_of_In : (k : Bytes) (v : V) (m : Dict V) → IsDict m → In (k, v) m → get k m ≡ some v
  unfolding get
  get_of_In k v [] h i = absurd i
  get_of_In k v ((j, w) ∷ m) h (inl e) = ground (arith, str_eq_iff j k)
  get_of_In k v ((j, w) ∷ m) h (inr i) = ground (arith, get_of_In k v m h.1 i, str_eq_iff j k)

module _ {V : Type 0} where
  pub put-IsDict : (k : Bytes) (v : V) (m : Dict V) → IsDict m → IsDict (put k v m)
  unfolding put get
  put-IsDict k v [] h = (refl, tt)
  put-IsDict k v ((j, w) ∷ m) h = elim (Bool-cases (str_eq j k)) [
    | inl y ↦ rw y (rw (← (str_eq_iff j k).0 y) h.0, h.1)
    | inr n ↦ rw n (
      get-put k j v m ∙ ground (arith, h.0, str_eq_iff k j, str_eq_iff j k),
      put-IsDict k v m h.1,
    )
  ]
