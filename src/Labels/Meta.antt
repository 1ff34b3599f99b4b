-- ===== src/Labels/Meta.antt =====
-- The meta keys: what the labels say of enablement, name, instance and profile.
use gobackup_docker.Base.Prefix.{cut_prefix-append, append_of_cut_prefix}
use gobackup_docker.Base.{
  ◌∙◌, refl, Bool-cases, is_empty, ap, false, inr, inl, Option-cases, cut_prefix, Bool, Option,
  none, some, [], ◌∷◌, ◌++◌, Bytes, str_eq, str_eq_iff, ◌≡◌, arith, if◌then◌else◌,
}
use gobackup_docker.Base.Dict.{get, IsDict}
use gobackup_docker.Labels.{
  nothing_parsed, parse, parse_labels, parse_label, prefix, LabelMap, enable_key, name_key,
  instance_key, profile_key, parse_bool, Parsed, parse_config, parse_key,
}

-- the value that `g` makes of a label, or `a` without one
abbrev pub found : {A : Type 0} → (Bytes → A) → Option Bytes → A → A
found g none a = a
found g (some v) a = g v

meta_of_key :
    (e : Bool) (p : Parsed) (rest v : Bytes)
    → ((parse_key e p rest v).name ≡ (if str_eq rest name_key then v else p.name))
      × ((parse_key e p rest v).instance_name
          ≡ (if str_eq rest instance_key then v else p.instance_name))
      × ((parse_key e p rest v).profile ≡ (if str_eq rest profile_key then v else p.profile))
      × ((parse_key e p rest v).enabled
          ≡ (if str_eq rest enable_key then parse_bool v e else p.enabled))
unfolding parse_key parse_config
meta_of_key e p rest v = ground (
  arith,
  str_eq_iff rest name_key,
  str_eq_iff rest instance_key,
  str_eq_iff rest profile_key,
  str_eq_iff rest enable_key,
)

-- The four meta fields after one label.
abbrev MetaAfter : Bool → Parsed → Bytes → Bytes → Parsed → Type 0
MetaAfter e p k v q =
    (q.name ≡ (if str_eq k (prefix ++ name_key) then v else p.name))
    × (q.instance_name ≡ (if str_eq k (prefix ++ instance_key) then v else p.instance_name))
    × (q.profile ≡ (if str_eq k (prefix ++ profile_key) then v else p.profile))
    × (q.enabled ≡ (if str_eq k (prefix ++ enable_key) then parse_bool v e else p.enabled))

str_eq-prefix : (p a b : Bytes) → str_eq (p ++ a) (p ++ b) ≡ str_eq a b
unfolding str_eq
str_eq-prefix [] a b = refl
str_eq-prefix (x ∷ p) a b = ground (arith, str_eq-prefix p a b)

-- a label without the prefix is no meta label
str_eq_no_prefix : (k p a : Bytes) → cut_prefix k p ≡ none → str_eq k (p ++ a) ≡ false
str_eq_no_prefix k p a h = elim (Bool-cases (str_eq k (p ++ a))) [
  | inr n ↦ n
  | inl y ↦ ground (arith, str_eq_iff k (p ++ a), cut_prefix-append p a)
]

-- the round for a label with the prefix; nothing behind the prefix is no meta key
meta_of_rest :
    (e : Bool) (p : Parsed) (rest v : Bytes)
    → let q = if is_empty rest then p else parse_key e p rest v in
      (q.name ≡ (if str_eq rest name_key then v else p.name))
      × (q.instance_name ≡ (if str_eq rest instance_key then v else p.instance_name))
      × (q.profile ≡ (if str_eq rest profile_key then v else p.profile))
      × (q.enabled ≡ (if str_eq rest enable_key then parse_bool v e else p.enabled))
meta_of_rest e p [] v = unfold str_eq in (refl, refl, refl, refl)
meta_of_rest e p (c ∷ rest) v = meta_of_key e p (c ∷ rest) v

meta_of_label : (e : Bool) (p : Parsed) (k v : Bytes) → MetaAfter e p k v (parse_label e p (k, v))
meta_of_label e p k v = elim (Option-cases (cut_prefix k prefix)) [
  | inl h ↦
      let no_key = λ (a : Bytes). str_eq_no_prefix k prefix a h in
      unfold parse_label in
      rw (h, no_key name_key, no_key instance_key, no_key profile_key, no_key enable_key)
        (refl, refl, refl, refl)
  | inr (rest, h) ↦
      let is_key : (a : Bytes) → str_eq k (prefix ++ a) ≡ str_eq rest a = λ a.
        ap (λ x. str_eq x (prefix ++ a)) (append_of_cut_prefix k prefix rest h)
        ∙ str_eq-prefix prefix rest a in
      unfold parse_label in
      rw (h, is_key name_key, is_key instance_key, is_key profile_key, is_key enable_key)
        (meta_of_rest e p rest v)
]

-- A field that a label changes only under one key holds, after a map of labels, what the map has
-- under that key.
module _ {A : Type 0} (e : Bool) (f : Parsed → A) (g : Bytes → A) (key : Bytes)
    (step : (p : Parsed) (k v : Bytes)
      → f (parse_label e p (k, v)) ≡ (if str_eq k key then g v else f p)) where
  field_of_labels :
      (p : Parsed) (ls : LabelMap)
      → IsDict ls
      → f (parse_labels e p ls) ≡ found g (get key ls) (f p)
  unfolding parse_labels get
  field_of_labels p [] h = refl
  field_of_labels p ((k, v) ∷ ls) h =
      field_of_labels (parse_label e p (k, v)) ls h.1 ∙ elim (Bool-cases (str_eq k key)) [
        | inl y ↦
            let gone : get key ls ≡ none = rw (← (str_eq_iff k key).0 y) h.0 in
            rw (gone, y) (step p k v ∙ rw y)
        | inr n ↦ rw n (ap (found g (get key ls)) (step p k v ∙ rw n))
      ]

-- Read from a map of labels, in whatever order, the name, the instance and the profile are the
-- values of their labels, empty without one, and enablement is what the boolean words of its label
-- say, the default without one.
pub parse_meta :
    (e : Bool) (ls : LabelMap)
    → IsDict ls
    → ((parse ls e).name ≡ found (λ v. v) (get (prefix ++ name_key) ls) [])
      × ((parse ls e).instance_name ≡ found (λ v. v) (get (prefix ++ instance_key) ls) [])
      × ((parse ls e).profile ≡ found (λ v. v) (get (prefix ++ profile_key) ls) [])
      × ((parse ls e).enabled ≡ found (λ v. parse_bool v e) (get (prefix ++ enable_key) ls) e)
unfolding parse
parse_meta e ls h =
    let start = nothing_parsed e in
    let law = meta_of_label e in
    (
      field_of_labels e (λ p. p.name) (λ v. v) _ (λ p k v. (law p k v).0) start ls h,
      field_of_labels e (λ p. p.instance_name) (λ v. v) _ (λ p k v. (law p k v).1) start ls h,
      field_of_labels e (λ p. p.profile) (λ v. v) _ (λ p k v. (law p k v).2) start ls h,
      field_of_labels e (λ p. p.enabled) (λ v. parse_bool v e) _ (λ p k v. (law p k v).3) start ls
          h,
    )
