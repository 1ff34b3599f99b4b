-- ===== src/Render/Merge.antt =====
-- internal/render/merge.go. Maps are values here: what Go writes in place is the result.
pub mod Overlay
pub mod Prune
use gobackup_docker.Base.{
  Bool, true, false, Option, none, some, List, [], ◌∷◌, Bytes, codes, str_eq, contains_text,
  if◌then◌else◌,
}
use gobackup_docker.Tree.{
  Value, str, arr, obj, Items, nil, cons, Fields, end, field, lookup, insert, as_map,
}
use gobackup_docker.Labels.{opt_out}

unfoldable mutual
  pub deep_copy : Value → Value
  deep_copy (obj m) = obj (deep_copy_fields m)
  deep_copy (arr xs) = arr (deep_copy_items xs)
  deep_copy v = v

  pub deep_copy_items : Items → Items
  deep_copy_items nil = nil
  deep_copy_items (cons x xs) = cons (deep_copy x) (deep_copy_items xs)

  pub deep_copy_fields : Fields → Fields
  deep_copy_fields end = end
  deep_copy_fields (field k v m) = field k (deep_copy v) (deep_copy_fields m)

-- `deep_merge base overlay`; `merge_entry` is the value that one overlay entry leaves under its
-- key, given the map that the base has there.
unfoldable mutual
  pub deep_merge : Fields → Fields → Fields
  deep_merge base end = base
  deep_merge base (field k ov overlay) =
      deep_merge (insert k (merge_entry (as_map (lookup k base)) ov) base) overlay

  pub merge_entry : Option Fields → Value → Value
  merge_entry (some bm) (obj om) = obj (deep_merge bm om)
  merge_entry none (obj om) = deep_copy (obj om)
  merge_entry _ ov = deep_copy ov

-- v.(string) == labels.OptOut
abbrev pub is_opt_out : Value → Bool
is_opt_out (str s) = str_eq s opt_out
is_opt_out _ = false

unfoldable mutual
  pub prune_opt_out : Fields → Fields
  prune_opt_out end = end
  prune_opt_out (field k v m) =
      if is_opt_out v then prune_opt_out m else field k (prune_value v) (prune_opt_out m)

  pub prune_value : Value → Value
  prune_value (obj m) = obj (prune_opt_out m)
  prune_value v = v

pub record TemplateData : Type 0 where
  pub model : Bytes
  pub container : Bytes
  pub host : Bytes
  pub instance_name : Bytes

-- What text/template makes of a text with the option missingkey=error: `none` is an error of
-- Parse or Execute.
abbrev pub Engine : Type 0
Engine = Bytes → TemplateData → Option Bytes

module _ (engine : Engine) (values : TemplateData) where
  unfoldable pub expand_text : Bytes → Option Value
  expand_text s =
      if contains_text s (codes "{{")
      then elim (engine s values) [ none ↦ none | some t ↦ some (str t) ]
      else some (str s)

  unfoldable mutual
    pub expand_templates : Value → Option Value
    expand_templates (obj m) = elim (expand_fields m) [ none ↦ none | some n ↦ some (obj n) ]
    expand_templates (arr xs) = elim (expand_items xs) [ none ↦ none | some ys ↦ some (arr ys) ]
    expand_templates (str s) = expand_text s
    expand_templates v = some v

    pub expand_items : Items → Option Items
    expand_items nil = some nil
    expand_items (cons x xs) = elim (expand_templates x) [
      | none ↦ none
      | some y ↦ elim (expand_items xs) [ none ↦ none | some ys ↦ some (cons y ys) ]
    ]

    pub expand_fields : Fields → Option Fields
    expand_fields end = some end
    expand_fields (field k v m) = elim (expand_templates v) [
      | none ↦ none
      | some w ↦ elim (expand_fields m) [ none ↦ none | some n ↦ some (field k w n) ]
    ]
