-- ===== src/Labels/Paths.antt =====
-- The config paths of the labels, and which value stands at a path when all labels are read.
use gobackup_docker.Base.{
  Bool, true, false, not, ◌||◌, Option, none, some, List, [], ◌∷◌, ◌++◌, Bytes, str_eq, str_eq_iff,
  split, cut_prefix, is_empty, All, ◌≡◌, refl, ap, arith, if◌then◌else◌, Bool-cases, inl, inr, ◌∙◌,
  Option-cases,
}
use gobackup_docker.Base.Prefix.{split-cons, cut_prefix-append}
use gobackup_docker.Tree.{Value, str, Fields, lookup}
use gobackup_docker.Tree.Laws.{lookup-insert_ne, lookup-insert_self}
use gobackup_docker.Labels.{
  LabelMap, prefix, enable_key, name_key, instance_key, profile_key, child_map, set_path, cred_ref,
  Parsed, parse_key, parse_label, parse_labels, parse, nothing_parsed,
}

-- the value at a path; a scalar on the way is no map
abbrev pub get_path : Fields → List Bytes → Option Value
get_path m [] = none
get_path m (k ∷ []) = lookup k m
get_path m (k ∷ j ∷ path) = get_path (child_map (lookup k m)) (j ∷ path)

-- neither path leads to the other
abbrev pub apart : List Bytes → List Bytes → Bool
apart (x ∷ p) (y ∷ q) = not (str_eq x y) || apart p q
apart _ _ = false

-- What is assigned at a path stands there.
pub get_path-set_path_self :
    (t : Fields) (k : Bytes) (p : List Bytes) (v : Value)
    → get_path (set_path t (k ∷ p) v) (k ∷ p) ≡ some v
unfolding set_path
get_path-set_path_self t k [] v = lookup-insert_self k v t
get_path-set_path_self t k (j ∷ p) v =
    rw (lookup-insert_self k _ t) (get_path-set_path_self (child_map (lookup k t)) j p v)

-- An assignment changes no value at a path apart from its own.
pub get_path-set_path-apart :
    (t : Fields) (p q : List Bytes) (v : Value)
    → apart p q ≡ true
    → get_path (set_path t p v) q ≡ get_path t q
unfolding set_path
get_path-set_path-apart t [] q v h = cc
get_path-set_path-apart t (k ∷ p) [] v h = refl
get_path-set_path-apart t (k ∷ []) (l ∷ []) v h = lookup-insert_ne k l v t (ground arith)
get_path-set_path-apart t (k ∷ []) (l ∷ m ∷ q) v h = rw (lookup-insert_ne k l v t (ground arith))
get_path-set_path-apart t (k ∷ j ∷ p) (l ∷ []) v h = lookup-insert_ne k l _ t (ground arith)
get_path-set_path-apart t (k ∷ j ∷ p) (l ∷ m ∷ q) v h = elim (Bool-cases (str_eq k l)) [
  | inr n ↦ rw (lookup-insert_ne k l _ t n)
  | inl y ↦
      rw (← (str_eq_iff k l).0 y, lookup-insert_self k _ t)
        (get_path-set_path-apart (child_map (lookup k t)) (j ∷ p) (m ∷ q) v (ground arith))
]

-- The path that a label writes to: none for a label that is not a literal value of the model.
abbrev pub written : Bytes → Bytes → Option (List Bytes)
written rest v =
    if is_empty rest
      || (str_eq rest enable_key
          || (str_eq rest name_key || (str_eq rest instance_key || str_eq rest profile_key)))
    then none
    else elim (cred_ref (split rest b'.') v) [ some r ↦ none | none ↦ some (split rest b'.') ]

abbrev written_under : Option Bytes → Bytes → Option (List Bytes)
written_under none v = none
written_under (some rest) v = written rest v

abbrev pub writes : Bytes × Bytes → Option (List Bytes)
writes (k, v) = written_under (cut_prefix k prefix) v

abbrev assigned : Fields → Option (List Bytes) → Bytes → Fields
assigned m none v = m
assigned m (some p) v = set_path m p (str v)

parse_key-model :
    (e : Bool) (p : Parsed) (rest v : Bytes)
    → is_empty rest ≡ false
    → (parse_key e p rest v).model ≡ assigned p.model (written rest v) v
unfolding parse_key
parse_key-model e p rest v h = ground arith

parse_label-model :
    (e : Bool) (p : Parsed) (l : Bytes × Bytes)
    → (parse_label e p l).model ≡ assigned p.model (writes l) l.1
unfolding parse_label
parse_label-model e p (k, v) = elim (Option-cases (cut_prefix k prefix)) [
  | inl h ↦ rw h
  | inr (rest, h) ↦ rw h (elim (Bool-cases (is_empty rest)) [
    | inl y ↦ rw y
    | inr n ↦ rw n (parse_key-model e p rest v n ∙ ap (λ w. assigned p.model w v) (rw n))
  ])
]

-- The label writes to no path that leads to `q`, or to which `q` leads.
abbrev pub spares : List Bytes → Option (List Bytes) → Bool
spares q none = true
spares q (some p) = apart p q

abbrev pub Spares : List Bytes → Bytes × Bytes → Type 0
Spares q l = spares q (writes l) ≡ true

assigned_apart :
    (m : Fields) (q : List Bytes) (w : Option (List Bytes)) (v : Bytes)
    → spares q w ≡ true
    → get_path (assigned m w v) q ≡ get_path m q
assigned_apart m q none v h = refl
assigned_apart m q (some p) v h = get_path-set_path-apart m p q (str v) h

parse_labels-Spares :
    (e : Bool) (p : Parsed) (ls : LabelMap) (q : List Bytes)
    → All (Spares q) ls
    → get_path (parse_labels e p ls).model q ≡ get_path p.model q
unfolding parse_labels
parse_labels-Spares e p [] q h = refl
parse_labels-Spares e p (l ∷ ls) q h =
    parse_labels-Spares e (parse_label e p l) ls q h.1
    ∙ rw (parse_label-model e p l) (assigned_apart p.model q (writes l) l.1 h.0)

parse_labels-append :
    (e : Bool) (p : Parsed) (xs ys : LabelMap)
    → parse_labels e p (xs ++ ys) ≡ parse_labels e (parse_labels e p xs) ys
unfolding parse_labels
parse_labels-append e p [] ys = refl
parse_labels-append e p (x ∷ xs) ys = parse_labels-append e (parse_label e p x) xs ys

-- A label gobackup.<rest> that is a literal config value stands at its path in the parsed model,
-- whatever labels are visited before it, if those visited after it write to no path that leads to
-- its own or to which its own leads.
pub parse_keeps :
    (e : Bool) (before after : LabelMap) (rest v : Bytes)
    → written rest v ≡ some (split rest b'.')
    → All (Spares (split rest b'.')) after
    → get_path (parse (before ++ (prefix ++ rest, v) ∷ after) e).model (split rest b'.')
      ≡ some (str v)
unfolding parse
parse_keeps e before after rest v w h =
    let q = split rest b'.' in
    let p = parse_labels e (nothing_parsed e) before in
    let l : Bytes × Bytes = (prefix ++ rest, v) in
    let wl : writes l ≡ some q = ap (λ o. written_under o v) (cut_prefix-append prefix rest) ∙ w in
    let (k, ks, c) = split-cons rest b'.' in
    rw (parse_labels-append e (nothing_parsed e) before (l ∷ after)) (
      parse_labels-Spares e (parse_label e p l) after q h
      ∙ rw (parse_label-model e p l, wl) (rw c (get_path-set_path_self p.model k ks (str v))))
