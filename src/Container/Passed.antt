-- ===== src/Container/Passed.antt =====
-- The labels that are passed on to the engine.
use gobackup_docker.Base.{
  ==_iff, ℕ, ap, sym, ◌∙◌, refl, ◌≡◌, Bool, true, false, not, ◌&&◌, Bool-cases, Option-cases, inl,
  inr, Option, none, some, [], ◌∷◌, ◌++◌, ◌==◌, Bytes, codes, str_eq, str_eq_iff, cut_at,
  cut_prefix, is_empty, if◌then◌else◌, arith,
}
use gobackup_docker.Base.Dict.{Dict, get, get-put, IsDict}
use gobackup_docker.Base.Prefix.{append_cancel, cut_prefix-append, append_of_cut_prefix}
use gobackup_docker.Container.{
  Config, prefix, parse_segment, parse_label, parse_labels, empty_config, parse,
}

abbrev pub labels_prefix : Bytes
labels_prefix = codes "gobackup_container.labels."

-- a text that is cut before a text is the two with the byte between them
cut_joined :
    (s : Bytes) (b : ℕ)
    → is_empty (cut_at s b).1 ≡ false
    → s ≡ (cut_at s b).0 ++ (b ∷ (cut_at s b).1)
unfolding cut_at
cut_joined [] b h = cc
cut_joined (c ∷ s) b h = elim (Bool-cases (c == b)) [
  | inl y ↦ rw y (ap (λ z. z ∷ s) ((==_iff c b).0 y))
  | inr n ↦ rw n (ap (λ z. c ∷ z) (cut_joined s b (rw n at h)))
]

-- whether a label passes its value on under the name
abbrev passes : Bytes → Bytes → Bool
passes t k = not (is_empty t) && str_eq k (labels_prefix ++ t)

segment_label :
    (cfg : Config) (t first tail v : Bytes)
    → get t (parse_segment cfg first tail v).labels ≡ (
        if not (is_empty tail) && (str_eq first (codes "labels") && str_eq tail t)
        then some v
        else get t cfg.labels)
unfolding parse_segment
segment_label cfg t first tail v = ground (
  arith,
  get-put tail t v cfg.labels,
  str_eq_iff first (codes "labels"),
  str_eq_iff first (codes "env"),
  str_eq_iff first (codes "networks"),
  str_eq_iff first (codes "command"),
  str_eq_iff first (codes "image"),
)

bool_ext : (a b : Bool) → (a ≡ true → b ≡ true) → (b ≡ true → a ≡ true) → a ≡ b
bool_ext a b f g = elim (Bool-cases a) [
  | inl y ↦ y ∙ sym (f y)
  | inr n ↦ elim (Bool-cases b) [ inl y ↦ cc (n, g y) | inr k ↦ n ∙ sym k ]
]

-- the two parts of a label's name behind the prefix are "labels" and a name
abbrev cut_matches : Bytes → Bytes → Bool
cut_matches t rest =
    let (first, tail) = cut_at rest b'.' in
    not (is_empty tail) && (str_eq first (codes "labels") && str_eq tail t)

joined_matches :
    (t first tail rest : Bytes)
    → rest ≡ first ++ (b'.' ∷ tail)
    → str_eq first (codes "labels") ≡ true
    → str_eq tail t ≡ true
    → str_eq rest (codes "labels." ++ t) ≡ true
joined_matches t first tail rest e f g = (str_eq_iff rest (codes "labels." ++ t)).1 (
    e
    ∙ ap (λ z. z ++ (b'.' ∷ tail)) ((str_eq_iff first (codes "labels")).0 f)
    ∙ ap (λ z. codes "labels." ++ z) ((str_eq_iff tail t).0 g))

matches_rest :
    (t rest : Bytes) → cut_matches t rest ≡ (not (is_empty t) && str_eq rest (codes "labels." ++ t))
unfolding cut_at str_eq
matches_rest t rest =
    bool_ext _ _
      (λ h.
        let tail_there : is_empty (cut_at rest b'.').1 ≡ false = ground (arith, h) in
        let f : str_eq (cut_at rest b'.').0 (codes "labels") ≡ true = ground (arith, h) in
        let g : str_eq (cut_at rest b'.').1 t ≡ true = ground (arith, h) in
        let e = joined_matches t _ _ rest (cut_joined rest b'.' tail_there) f g in
        let there : is_empty t ≡ false = rw ((str_eq_iff _ t).0 g) at tail_there in
        rw (there, e) refl)
      (λ h.
        let e : rest ≡ codes "labels." ++ t =
          (str_eq_iff rest (codes "labels." ++ t)).0 (ground (arith, h)) in
        let there : is_empty t ≡ false = ground (arith, h) in
        rw e (rw (there, (str_eq_iff t t).1 refl) refl))

no_prefix : (t k : Bytes) → cut_prefix k prefix ≡ none → passes t k ≡ false
no_prefix t k h = elim (Bool-cases (passes t k)) [
  | inr n ↦ n
  | inl y ↦
      let e : k ≡ labels_prefix ++ t = (str_eq_iff k (labels_prefix ++ t)).0 (ground (arith, y)) in
      cc (h, ap (λ z. cut_prefix z prefix) e, cut_prefix-append prefix (codes "labels." ++ t))
]

passes_rest :
    (t k rest : Bytes)
    → k ≡ prefix ++ rest
    → passes t k ≡ (not (is_empty t) && str_eq rest (codes "labels." ++ t))
passes_rest t k rest e =
    let same : str_eq k (labels_prefix ++ t) ≡ str_eq rest (codes "labels." ++ t) =
      bool_ext _ _
        (λ h. (str_eq_iff rest (codes "labels." ++ t)).1 (
          append_cancel prefix rest (codes "labels." ++ t)
            (sym e ∙ (str_eq_iff k (labels_prefix ++ t)).0 h)))
        (λ h.
          (str_eq_iff k (labels_prefix ++ t)).1
            (e ∙ ap (λ z. prefix ++ z) ((str_eq_iff rest (codes "labels." ++ t)).0 h))) in
    rw same refl

-- what a name has after one label
abbrev Next : Bytes → Config → Bytes → Bytes → Config → Type 0
Next t cfg k v cfg' = get t cfg'.labels ≡ (if passes t k then some v else get t cfg.labels)

rest_Next :
    (t : Bytes) (cfg : Config) (k v rest : Bytes)
    → k ≡ prefix ++ rest
    → Next t cfg k v (
        if is_empty rest
        then cfg
        else parse_segment cfg (cut_at rest b'.').0 (cut_at rest b'.').1 v)
rest_Next t cfg k v [] e =
    rw (passes_rest t k [] e) (ground (arith, str_eq_iff [] (codes "labels." ++ t)))
rest_Next t cfg k v (c ∷ rest) e =
    segment_label cfg t (cut_at (c ∷ rest) b'.').0 (cut_at (c ∷ rest) b'.').1 v
    ∙ ap (λ (b : Bool). if b then some v else get t cfg.labels)
        (matches_rest t (c ∷ rest) ∙ sym (passes_rest t k (c ∷ rest) e))

label_Next : (t : Bytes) (cfg : Config) (k v : Bytes) → Next t cfg k v (parse_label cfg (k, v))
unfolding parse_label get str_eq cut_prefix
label_Next t cfg k v = elim (Option-cases (cut_prefix k prefix)) [
  | inl h ↦ rw (h, no_prefix t k h) refl
  | inr (rest, h) ↦ rw h (rest_Next t cfg k v rest (append_of_cut_prefix k prefix rest h))
]

-- the value, or else `o`
abbrev or_else : Option Bytes → Option Bytes → Option Bytes
or_else g o = elim g [ none ↦ o | some v ↦ some v ]

-- what the labels pass on under a name, and `o` where they pass on nothing
abbrev pub passed_on : Bytes → Dict Bytes → Option Bytes → Option Bytes
passed_on t ls o = if is_empty t then o else or_else (get (labels_prefix ++ t) ls) o

one_more :
    (e m : Bool) (g o : Option Bytes) (v : Bytes)
    → (m ≡ true → g ≡ none)
    → (if e
        then (if not e && m then some v else o)
        else or_else g (if not e && m then some v else o))
      ≡ (if e then o else or_else (if m then some v else g) o)
one_more true m g o v h = refl
one_more false true g o v h = rw (h refl) refl
one_more false false g o v h = refl

passed_on_step :
    (t k v : Bytes) (ls : Dict Bytes) (o : Option Bytes)
    → get k ls ≡ none
    → passed_on t ls (if passes t k then some v else o) ≡ passed_on t ((k, v) ∷ ls) o
unfolding get
passed_on_step t k v ls o h =
    let key = labels_prefix ++ t in
    one_more (is_empty t) (str_eq k key) (get key ls) o v
      (λ y. ap (λ z. get z ls) (sym ((str_eq_iff k key).0 y)) ∙ h)

labels_passed :
    (t : Bytes) (cfg : Config) (ls : Dict Bytes)
    → IsDict ls
    → get t (parse_labels cfg ls).labels ≡ passed_on t ls (get t cfg.labels)
unfolding parse_labels get
labels_passed t cfg [] h = ground arith
labels_passed t cfg ((k, v) ∷ ls) h =
    labels_passed t (parse_label cfg (k, v)) ls h.1
    ∙ ap (passed_on t ls) (label_Next t cfg k v)
    ∙ passed_on_step t k v ls (get t cfg.labels) h.0

-- From labels with distinct keys in any order, the engine's labels are exactly those that stand
-- under "gobackup_container.labels.", each under what follows in its key; where nothing follows
-- none is passed on.
pub parse_passes_labels :
    (t : Bytes) (ls : Dict Bytes)
    → IsDict ls
    → get t (parse ls).labels
      ≡ (if is_empty t then none else get (codes "gobackup_container.labels." ++ t) ls)
unfolding parse get
parse_passes_labels t ls h =
    labels_passed t empty_config ls h ∙ passed_none (is_empty t) (get (labels_prefix ++ t) ls)
  where
    passed_none :
        (b : Bool) (o : Option Bytes)
        → (if b then none else elim o [ none ↦ none | some v ↦ some v ]) ≡ (if b then none else o)
    passed_none true o = refl
    passed_none false none = refl
    passed_none false (some v) = refl
