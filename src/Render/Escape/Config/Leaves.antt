-- ===== src/Render/Escape/Config/Leaves.antt =====
-- What escaping does to the texts of a whole document.
use gobackup_docker.Base.Sort.{is_empty-sort_texts}
use gobackup_docker.Base.{
  ◌⊎◌, str_eq_iff, ◌&&◌, ℕ, suc, Bool, true, false, not, ◌||◌, List, [], ◌∷◌, ◌++◌, Bytes, is_empty,
  if◌then◌else◌, ◌≡◌, refl, arith, Bool-cases, inl, inr, ◌∙◌, sym, ap,
}
use gobackup_docker.Tree.{Value, str, arr, obj, Items, nil, cons, Fields, end, field}
use gobackup_docker.Render.Escape.{has_bare_dollar, escape_bare_dollars}
use gobackup_docker.Render.Escape.Clean.{has_bare_dollar-escape, escape_changes_iff}
use gobackup_docker.Render.Escape.Config.{
  escape_value, escape_fields, escape_items, escape_config, collect_bare_dollar_paths,
  collect_fields, collect_items, bare_dollar_paths, dotted, indexed,
}

-- No text holds a '$' that would be escaped, the texts of a []string left aside.
abbrev mutual
  pub IsEscaped : Value → Type 0
  IsEscaped (str s) = has_bare_dollar s ≡ false
  IsEscaped (arr xs) = AreEscaped xs
  IsEscaped (obj m) = FieldsEscaped m
  IsEscaped _ = Unit

  pub AreEscaped : Items → Type 0
  AreEscaped nil = Unit
  AreEscaped (cons x xs) = IsEscaped x × AreEscaped xs

  pub FieldsEscaped : Fields → Type 0
  FieldsEscaped end = Unit
  FieldsEscaped (field k v m) = IsEscaped v × FieldsEscaped m

pub or_false : (a b : Bool) → (a || b) ≡ false → (a ≡ false) × (b ≡ false)
or_false a b h = ground arith

-- a value that is not marked as changed is the value itself
mutual
  unfolding escape_value

  unchanged_value : (v : Value) → (escape_value v).1 ≡ false → (escape_value v).0 ≡ v
  unchanged_value (str s) h = ap str ((str_eq_iff (escape_bare_dollars s) s).0 (ground arith))
  unchanged_value (arr xs) h = ap arr (unchanged_items xs h)
  unchanged_value (obj m) h = ap obj (unchanged_fields m h)
  unchanged_value _ h = refl

  unchanged_items : (xs : Items) → (escape_items xs).1 ≡ false → (escape_items xs).0 ≡ xs
  unchanged_items nil h = refl
  unchanged_items (cons x xs) h =
      let (p, q) = or_false (escape_value x).1 (escape_items xs).1 h in
      rw p (ap (cons x) (unchanged_items xs q))

  unchanged_fields : (m : Fields) → (escape_fields m).1 ≡ false → (escape_fields m).0 ≡ m
  unchanged_fields end h = refl
  unchanged_fields (field k v m) h =
      let (p, q) = or_false (escape_value v).1 (escape_fields m).1 h in
      rw p (ap (field k v) (unchanged_fields m q))

-- what is written back, or left, in a slot of a map or a slice
IsEscaped-slot :
    (v w : Value) (b : Bool) → IsEscaped w → (b ≡ false → w ≡ v) → IsEscaped (if b then w else v)
IsEscaped-slot v w true h e = h
IsEscaped-slot v w false h e = rw (← e refl) h

mutual
  unfolding escape_value

  escape_value-IsEscaped : (v : Value) → IsEscaped (escape_value v).0
  escape_value-IsEscaped (str s) = has_bare_dollar-escape s
  escape_value-IsEscaped (arr xs) = escape_items-AreEscaped xs
  escape_value-IsEscaped (obj m) = escape_fields-FieldsEscaped m
  escape_value-IsEscaped _ = tt

  escape_items-AreEscaped : (xs : Items) → AreEscaped (escape_items xs).0
  escape_items-AreEscaped nil = tt
  escape_items-AreEscaped (cons x xs) = (
    IsEscaped-slot x (escape_value x).0 (escape_value x).1 (escape_value-IsEscaped x)
        (unchanged_value x),
    escape_items-AreEscaped xs,
  )

  escape_fields-FieldsEscaped : (m : Fields) → FieldsEscaped (escape_fields m).0
  escape_fields-FieldsEscaped end = tt
  escape_fields-FieldsEscaped (field k v m) = (
    IsEscaped-slot v (escape_value v).0 (escape_value v).1 (escape_value-IsEscaped v)
        (unchanged_value v),
    escape_fields-FieldsEscaped m,
  )

is_empty-append : (xs ys : List Bytes) → is_empty (xs ++ ys) ≡ (is_empty xs && is_empty ys)
is_empty-append [] ys = refl
is_empty-append (x ∷ xs) ys = refl

not_and : (a b : Bool) → not (a && b) ≡ (not a || not b)
not_and a b = ground arith

-- a value changes exactly when the walk finds a path in it
mutual
  unfolding escape_value collect_bare_dollar_paths

  changed_value :
      (v : Value) (p : Bytes) → (escape_value v).1 ≡ not (is_empty (collect_bare_dollar_paths v p))
  changed_value (str s) p =
      rw (escape_changes_iff s)
        (elim (Bool-cases (has_bare_dollar s)) [ inl y ↦ rw y | inr n ↦ rw n ])
  changed_value (arr xs) p = changed_items xs p 0
  changed_value (obj m) p = changed_fields m p
  changed_value _ p = refl

  changed_items :
      (xs : Items) (p : Bytes) (i : ℕ) → (escape_items xs).1 ≡ not (is_empty (collect_items xs p i))
  changed_items nil p i = refl
  changed_items (cons x xs) p i =
      rw (changed_value x (indexed p i), changed_items xs p (suc i))
        (rw
          (is_empty-append (collect_bare_dollar_paths x (indexed p i)) (collect_items xs p (suc i)))
          (sym (not_and _ _)))

  changed_fields :
      (m : Fields) (p : Bytes) → (escape_fields m).1 ≡ not (is_empty (collect_fields m p))
  changed_fields end p = refl
  changed_fields (field k v m) p =
      rw (changed_value v (dotted p k), changed_fields m p)
        (rw (is_empty-append (collect_bare_dollar_paths v (dotted p k)) (collect_fields m p))
          (sym (not_and _ _)))

-- EscapeConfig leaves no text that would be escaped, a []string aside; it reports a change exactly
-- when BareDollarPaths has a path to warn of, and changes nothing otherwise.
pub escape_config_lem :
    (cfg : Fields)
    → FieldsEscaped (escape_config cfg).0
      × ((escape_config cfg).1 ≡ not (is_empty (bare_dollar_paths cfg)))
      × (((escape_config cfg).0 ≡ cfg) ⊎ ((escape_config cfg).1 ≡ true))
unfolding escape_config bare_dollar_paths
escape_config_lem cfg = (
  escape_fields-FieldsEscaped cfg,
  changed_fields cfg [] ∙ ap not (sym (is_empty-sort_texts (collect_fields cfg []))),
  elim (Bool-cases (escape_fields cfg).1) [ inl y ↦ inr y | inr n ↦ inl (unchanged_fields cfg n) ],
)
