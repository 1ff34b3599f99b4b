-- ===== src/Render/Model.antt =====
-- internal/render/model.go: the config document from the sources and the profiles. Log output is
-- not modelled.
pub mod Names
pub mod Placeholder
use gobackup_docker.Base.Dict.{get, Dict}
use gobackup_docker.Base.{
  ℕ, Bool, true, false, not, ◌&&◌, ◌||◌, Option, none, some, List, [], ◌∷◌, ◌++◌, ◌==◌, leb, Bytes,
  codes, to_upper, join, map, is_empty, is_some, if◌then◌else◌,
}
use gobackup_docker.Labels.{CredKind, CredRef, child_map}
use gobackup_docker.Tree.{Value, str, obj, Fields, end, field, lookup, insert, as_map}
use gobackup_docker.Render.Merge.{
  TemplateData, Engine, deep_copy_fields, deep_merge, prune_opt_out, expand_fields,
}
use gobackup_docker.Render.Coerce.{coerce_fields}

pub record ResolvedCred : Type 0 where
  pub var : Bytes
  pub kind : CredKind
  pub ref : Bytes
  pub container_id : Bytes

pub record Source : Type 0 where
  pub container : Bytes
  pub container_id : Bytes
  pub name : Bytes
  pub profile : Bytes
  pub model : Fields
  pub cred_refs : List CredRef

-- a profile name and its body
abbrev pub Profiles : Type 0
Profiles = Dict Fields

unfoldable pub model_name : Bytes → Bytes → Bytes → Bytes
model_name container custom_name host_id =
    if not (is_empty custom_name)
    then custom_name
    else if not (is_empty host_id)
    then container ++ (b'-' ∷ host_id)
    else container

abbrev pub default_profile : Bytes
default_profile = codes "default"

-- `none` is an unknown explicit profile
unfoldable pub resolve_profile : Profiles → Source → Option Fields
unfolding get
resolve_profile profiles src =
    let name = if is_empty src.profile then default_profile else src.profile in
    elim (get name profiles) [
      | some base ↦ some base
      | none ↦ if is_empty src.profile then some end else none
    ]

abbrev pub is_var_byte : ℕ → Bool
is_var_byte c = leb b'A' c && leb c b'Z' || (leb b'0' c && leb c b'9' || c == b'_')

unfoldable pub sanitize_var : Bytes → Bytes
unfolding to_upper
sanitize_var s = map (λ c. if is_var_byte c then c else b'_') (to_upper s)

unfoldable pub cred_var_name : Bytes → List Bytes → Bytes
unfolding sanitize_var join
cred_var_name model path = join (map sanitize_var (codes "GB" ∷ model ∷ path)) (codes "_")

-- v, ok = v.(map[string]any) on a value that is there
abbrev sub_map : Value → Option Fields
sub_map (obj m) = some m
sub_map _ = none

unfoldable pub has_leaf : Fields → List Bytes → Bool
has_leaf m [] = false
has_leaf m (k ∷ []) = is_some (lookup k m)
has_leaf m (k ∷ j ∷ path) = elim (as_map (lookup k m)) [
  | none ↦ false
  | some child ↦ has_leaf child (j ∷ path)
]

-- A path has a segment.
unfoldable pub set_leaf : Fields → List Bytes → Value → Fields
set_leaf m [] val = m
set_leaf m (k ∷ []) val = insert k val m
set_leaf m (k ∷ j ∷ path) val = insert k (obj (set_leaf (child_map (lookup k m)) (j ∷ path) val)) m

-- "${" + v + "}"
abbrev pub placeholder : Bytes → Bytes
placeholder v = codes "${" ++ (v ++ codes "}")

-- `none` is a reference that is empty, or a credential that is set inline as well
unfoldable pub substitute_creds :
    Fields → List CredRef → Bytes → Bytes → Option (Fields × List ResolvedCred)
unfolding has_leaf set_leaf
substitute_creds model [] name container_id = some (model, [])
substitute_creds model (r ∷ refs) name container_id =
    let v = cred_var_name name r.path in
    let rest =
      substitute_creds (set_leaf model r.path (str (placeholder v))) refs name container_id in
    if is_empty r.ref || has_leaf model r.path then none else elim rest [
      | none ↦ none
      | some (m, out) ↦
          some
            (m, record { var = v; kind = r.kind; ref = r.ref; container_id = container_id } ∷ out)
    ]

-- len(m) == 0 for the map that a failed assertion leaves
abbrev pub no_entries : Option Fields → Bool
no_entries none = true
no_entries (some end) = true
no_entries (some (field k v m)) = false

-- validateModel returned no error
unfoldable pub is_valid_model : Fields → Bool
is_valid_model m =
    if no_entries (as_map (lookup (codes "storages") m))
    then false
    else not (
        no_entries (as_map (lookup (codes "databases") m))
        && not (is_some (lookup (codes "archive") m)))

module _ (engine : Engine) (profiles : Profiles) (host_id instance_name : Bytes) where
  abbrev template_data : Source → TemplateData
  template_data src = record {
    model = model_name src.container src.name host_id;
    container = src.container;
    host = host_id;
    instance_name = instance_name;
  }

  -- the model after validateModel
  unfoldable pub validated :
      Option (Fields × List ResolvedCred) → Option (Fields × List ResolvedCred)
  validated none = none
  validated (some (m, creds)) = if is_valid_model m then some (m, creds) else none

  -- the model after its templates are expanded, or not
  unfoldable pub finish_model : Source → Option Fields → Option (Fields × List ResolvedCred)
  unfolding validated
  finish_model src none = none
  finish_model src (some expanded) = validated (
      substitute_creds (coerce_fields expanded []) src.cred_refs
        (model_name src.container src.name host_id) src.container_id)

  -- the model over its profile, if that is known
  unfoldable pub merge_model : Source → Option Fields → Option (Fields × List ResolvedCred)
  unfolding finish_model
  merge_model src none = none
  merge_model src (some base) = finish_model src (
      expand_fields engine (template_data src)
        (prune_opt_out (deep_merge (deep_copy_fields base) src.model)))

  -- The model of one source before the loop looks at the models it has: `none` is a `continue`.
  unfoldable pub build_model : Source → Option (Fields × List ResolvedCred)
  unfolding merge_model
  build_model src = merge_model src (resolve_profile profiles src)

  -- a model under its name, which the first one keeps
  unfoldable pub add_model :
      Bytes
      → Fields × List ResolvedCred
      → Option (Fields × List ResolvedCred)
      → Fields × List ResolvedCred
  add_model name acc none = acc
  add_model name (models, creds) (some (m, new)) =
      if is_some (lookup name models)
      then (models, creds)
      else (insert name (obj m) models, creds ++ new)

  -- one round of the loop over the models and the credentials so far
  unfoldable pub build_source : Fields × List ResolvedCred → Source → Fields × List ResolvedCred
  unfolding add_model
  build_source acc src = add_model (model_name src.container src.name host_id) acc (build_model src)

  unfoldable pub build_sources :
      Fields × List ResolvedCred → List Source → Fields × List ResolvedCred
  unfolding build_source
  build_sources acc [] = acc
  build_sources acc (src ∷ sources) = build_sources (build_source acc src) sources

  unfoldable pub build_with_creds : List Source → Fields × List ResolvedCred
  unfolding build_sources
  build_with_creds sources =
      let (models, creds) = build_sources (end, []) sources in
      (field (codes "models") (obj models) end, creds)

  unfoldable pub build : List Source → Fields
  unfolding build_with_creds
  build sources = (build_with_creds sources).0
