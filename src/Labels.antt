-- ===== src/Labels.antt =====
-- internal/labels/parse.go: the gobackup.* labels of one container as one model tree. A label map
-- is the list of its entries in the order in which `range` visits them.
pub mod Paths
pub mod Meta
use gobackup_docker.Base.Dict.{Dict}
use gobackup_docker.Base.{
  Bool, true, false, ◌&&◌, ◌||◌, Option, none, some, List, [], ◌∷◌, ◌++◌, ◌==◌, leb, length, Bytes,
  codes, str_eq, cut_prefix, cut_suffix, split, trim_space, to_lower, is_empty, if◌then◌else◌,
}
use gobackup_docker.Tree.{Value, str, obj, Fields, end, lookup, insert}

abbrev pub LabelMap : Type 0
LabelMap = Dict Bytes

abbrev pub prefix : Bytes
prefix = codes "gobackup."

abbrev pub enable_key : Bytes
enable_key = codes "enable"

abbrev pub name_key : Bytes
name_key = codes "name"

abbrev pub instance_key : Bytes
instance_key = codes "instance"

abbrev pub profile_key : Bytes
profile_key = codes "profile"

-- the value that deletes an inherited subtree
abbrev pub opt_out : Bytes
opt_out = codes "!none"

pub data CredKind : Type 0 where
  cred_env cred_file : CredKind

-- slices.Contains
unfoldable pub one_of : Bytes → List Bytes → Bool
one_of s [] = false
one_of s (x ∷ xs) = str_eq s x || one_of s xs

abbrev pub cred_keys : List Bytes
cred_keys =
    codes "password" ∷ codes "token" ∷ codes "secret" ∷ codes "access_key" ∷ codes "secret_key" ∷ []

pub record CredRef : Type 0 where
  pub path : List Bytes
  pub kind : CredKind
  pub ref : Bytes

pub record Parsed : Type 0 where
  pub enabled : Bool
  pub name : Bytes
  pub instance_name : Bytes
  pub profile : Bytes
  pub model : Fields
  pub cred_refs : List CredRef

abbrev allowed : Option Bytes → Option Bytes
allowed none = none
allowed (some b) = if one_of b cred_keys then some b else none

-- the base key and the kind of a segment <credkey>_env or <credkey>_file
unfoldable pub credential_suffix : Bytes → Option (Bytes × CredKind)
unfolding one_of cut_suffix
credential_suffix seg = elim (allowed (cut_suffix seg (codes "_env"))) [
  | some b ↦ some (b, cred_env)
  | none ↦ elim (allowed (cut_suffix seg (codes "_file"))) [
    | some b ↦ some (b, cred_file)
    | none ↦ none
  ]
]

abbrev pub last_segment : Bytes → List Bytes → Bytes
last_segment p [] = p
last_segment p (q ∷ ps) = last_segment q ps

-- parts[:len(parts)-1] and then `base`
abbrev pub replace_last : List Bytes → Bytes → List Bytes
replace_last [] base = base ∷ []
replace_last (p ∷ []) base = base ∷ []
replace_last (p ∷ q ∷ ps) base = p ∷ replace_last (q ∷ ps) base

unfoldable pub cred_ref : List Bytes → Bytes → Option CredRef
unfolding credential_suffix
cred_ref [] value = none
cred_ref (p ∷ []) value = none
cred_ref (p ∷ q ∷ ps) value = elim (credential_suffix (last_segment q ps)) [
  | none ↦ none
  | some (base, kind) ↦
      some (record { path = replace_last (p ∷ q ∷ ps) base; kind = kind; ref = value })
]

-- child, ok := tree[key].(map[string]any), and a new map if it is none
abbrev pub child_map : Option Value → Fields
child_map (some (obj m)) = m
child_map _ = end

-- The assignment to the child map is one to the tree that holds it. A path has a segment.
unfoldable pub set_path : Fields → List Bytes → Value → Fields
set_path tree [] val = tree
set_path tree (k ∷ []) val = insert k val tree
set_path tree (k ∷ j ∷ path) val =
    insert k (obj (set_path (child_map (lookup k tree)) (j ∷ path) val)) tree

abbrev true_words : List Bytes
true_words =
    codes "true" ∷ codes "1" ∷ codes "yes" ∷ codes "on" ∷ codes "enable" ∷ codes "enabled" ∷ []

abbrev false_words : List Bytes
false_words =
    codes "false" ∷ codes "0" ∷ codes "no" ∷ codes "off" ∷ codes "disable" ∷ codes "disabled" ∷ []

unfoldable pub parse_bool : Bytes → Bool → Bool
unfolding one_of to_lower trim_space
parse_bool v fallback =
    let w = to_lower (trim_space v) in
    if one_of w true_words then true else if one_of w false_words then false else fallback

-- the default case: a credential reference, or a literal value of the model
unfoldable pub parse_config : Parsed → List Bytes → Bytes → Parsed
unfolding cred_ref
parse_config p parts v = elim (cred_ref parts v) [
  | some r ↦ record p { cred_refs = p.cred_refs ++ r ∷ [] }
  | none ↦ record p { model = set_path p.model parts (str v) }
]

-- the switch on what follows the prefix
unfoldable pub parse_key : Bool → Parsed → Bytes → Bytes → Parsed
unfolding parse_config
parse_key exposed p rest v =
    if str_eq rest enable_key
    then record p { enabled = parse_bool v exposed }
    else if str_eq rest name_key
    then record p { name = v }
    else if str_eq rest instance_key
    then record p { instance_name = v }
    else if str_eq rest profile_key
    then record p { profile = v }
    else parse_config p (split rest b'.') v

-- one round of the loop
unfoldable pub parse_label : Bool → Parsed → Bytes × Bytes → Parsed
unfolding parse_key
parse_label exposed p (k, v) = elim (cut_prefix k prefix) [
  | none ↦ p
  | some rest ↦ if is_empty rest then p else parse_key exposed p rest v
]

unfoldable pub parse_labels : Bool → Parsed → LabelMap → Parsed
parse_labels exposed p [] = p
parse_labels exposed p (l ∷ ls) = parse_labels exposed (parse_label exposed p l) ls

abbrev pub nothing_parsed : Bool → Parsed
nothing_parsed exposed = record {
  enabled = exposed;
  name = [];
  instance_name = [];
  profile = [];
  model = end;
  cred_refs = [];
}

unfoldable pub parse : LabelMap → Bool → Parsed
unfolding parse_labels
parse labels exposed = parse_labels exposed (nothing_parsed exposed) labels
