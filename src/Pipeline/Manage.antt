-- ===== src/Pipeline/Manage.antt =====
-- internal/pipeline/manage.go: the spec of the recreated engine container, and whether it is needed.
pub mod Shell
pub mod Env
pub mod Replace
pub mod Ensure
pub mod Wired
pub mod Killed
pub mod Mounts
pub mod Stable
use gobackup_docker.Base.{
  ℕ, Bool, true, false, not, ◌&&◌, ◌||◌, Option, none, some, List, [], ◌∷◌, ◌++◌, ◌==◌, length,
  Bytes, codes, str_eq, has_prefix, fields, replace_all, is_empty, if◌then◌else◌,
}
use gobackup_docker.Base.Dict.{Dict, get, put}
use gobackup_docker.Labels.{one_of}
use gobackup_docker.Container.{Config}
use gobackup_docker.Pipeline.Docker.{MountPoint, MountDef, InspectResult, ContainerSpec}

abbrev pub gobackup_component_label : Bytes
gobackup_component_label = codes "gobackup-docker.component"

abbrev pub gobackup_component_value : Bytes
gobackup_component_value = codes "gobackup"

abbrev pub base_cmd_label : Bytes
base_cmd_label = codes "gobackup-docker.base-command"

abbrev pub replaces_label : Bytes
replaces_label = codes "gobackup-docker.replaces"

abbrev pub archive_mount_prefix : Bytes
archive_mount_prefix = codes "/volumes/"

abbrev pub secret_mount_prefix : Bytes
secret_mount_prefix = codes "/gobackup-secrets/"

pub record SecretExport : Type 0 where
  pub var : Bytes
  pub path : Bytes

pub record EngineExtras : Type 0 where
  pub extra_mounts : List MountDef
  pub env_vars : List Bytes
  pub secret_exports : List SecretExport

unfoldable pub sh_quote : Bytes → Bytes
unfolding replace_all
sh_quote s = b'\'' ∷ (replace_all s b'\'' (codes "'\\''") ++ b'\'' ∷ [])

unfoldable pub export_texts : List SecretExport → Bytes
unfolding sh_quote
export_texts [] = []
export_texts (e ∷ es) =
    codes "export "
    ++ (e.var ++ (codes "=\"$(cat " ++ (sh_quote e.path ++ (codes ")\"; " ++ export_texts es))))

unfoldable pub quoted_args : List Bytes → Bytes
unfolding sh_quote
quoted_args [] = []
quoted_args (a ∷ base) = b' ' ∷ (sh_quote a ++ quoted_args base)

unfoldable pub wrap_command_with_secrets : List Bytes → List SecretExport → List Bytes
unfolding export_texts quoted_args
wrap_command_with_secrets base exports =
    if is_empty exports
    then base
    else codes "/bin/sh"
      ∷ codes "-c"
      ∷ (export_texts exports ++ (codes "exec" ++ quoted_args base))
      ∷ []

-- the bytes in front of the first '=', or all of them
unfoldable pub env_key : Bytes → Bytes
env_key [] = []
env_key (c ∷ e) = let rest = env_key e in if c == b'=' then [] else c ∷ rest

unfoldable pub env_keys : List Bytes → List Bytes
unfolding env_key
env_keys [] = []
env_keys (c ∷ creds) = env_key c ∷ env_keys creds

-- the base entries whose key is none of the given
unfoldable pub without_keys : List Bytes → List Bytes → List Bytes
unfolding one_of
without_keys keys [] = []
without_keys keys (e ∷ base) =
    let rest = without_keys keys base in if one_of (env_key e) keys then rest else e ∷ rest

unfoldable pub merge_env : List Bytes → List Bytes → List Bytes
unfolding env_keys without_keys
merge_env base creds = if is_empty creds then base else without_keys (env_keys creds) base ++ creds

unfoldable pub mount_key : Bytes → Bytes → Bytes → Bool → Bytes
mount_key type source target read_only =
    type
    ++ (b'|'
        ∷ (source
            ++ (b'|' ∷ (target ++ (b'|' ∷ (if read_only then codes "true" else codes "false"))))))

abbrev pub def_key : MountDef → Bytes
def_key d = mount_key d.type d.source d.target d.read_only

abbrev pub point_source : MountPoint → Bytes
point_source c = if is_empty c.name then c.source else c.name

abbrev pub point_key : MountPoint → Bytes
point_key c = mount_key c.type (point_source c) c.destination (not c.rw)

unfoldable pub def_keys : List MountDef → List Bytes
def_keys [] = []
def_keys (d ∷ desired) = def_key d ∷ def_keys desired

unfoldable pub all_wanted : List Bytes → List MountPoint → Bool
unfolding one_of
all_wanted want [] = true
all_wanted want (c ∷ current) = one_of (point_key c) want && all_wanted want current

unfoldable pub mounts_equal : List MountPoint → List MountDef → Bool
unfolding def_keys all_wanted
mounts_equal current desired =
    if not (length current == length desired) then false else all_wanted (def_keys desired) current

unfoldable pub slices_equal : List Bytes → List Bytes → Bool
slices_equal [] [] = true
slices_equal (x ∷ a) (y ∷ b) = str_eq x y && slices_equal a b
slices_equal _ _ = false

-- containsString(existing, v) for every v
unfoldable pub all_contained : List Bytes → List Bytes → Bool
unfolding one_of
all_contained env [] = true
all_contained env (v ∷ vars) = one_of v env && all_contained env vars

unfoldable pub needs_recreate : InspectResult → ContainerSpec → List Bytes → Bool
unfolding mounts_equal slices_equal all_contained
needs_recreate existing spec cred_vars =
    if not (mounts_equal existing.mounts spec.mounts)
    then true
    else if not (slices_equal existing.command spec.command)
    then true
    else not (all_contained existing.env cred_vars)

unfoldable pub is_managed_mount : Bytes → Bool
unfolding has_prefix
is_managed_mount dest = has_prefix dest archive_mount_prefix || has_prefix dest secret_mount_prefix

unfoldable pub mount_point_to_def : MountPoint → MountDef
mount_point_to_def mp = record {
  type = mp.type;
  source = point_source mp;
  target = mp.destination;
  read_only = not mp.rw;
}

unfoldable pub unmanaged : List MountPoint → List MountDef
unfolding is_managed_mount mount_point_to_def
unmanaged [] = []
unmanaged (mp ∷ existing) =
    let rest = unmanaged existing in
    if is_managed_mount mp.destination then rest else mount_point_to_def mp ∷ rest

unfoldable pub merge_mounts : List MountPoint → List MountDef → List MountDef
unfolding unmanaged
merge_mounts existing managed = unmanaged existing ++ managed

-- encoding/json on a []string: the text that Marshal writes, and what Unmarshal reads, if it is one
pub record Json : Type 0 where
  pub marshal : List Bytes → Bytes
  pub unmarshal : Bytes → Option (List Bytes)

abbrev pub or_text : Option Bytes → Bytes
or_text none = []
or_text (some v) = v

-- labels[k] = v for every entry
unfoldable pub put_all : Dict Bytes → Dict Bytes → Dict Bytes
unfolding put
put_all labels [] = labels
put_all labels ((k, v) ∷ more) = put_all (put k v labels) more

module _ (json : Json) where
  -- the decoded command, if there is one and it is not empty
  unfoldable pub decode_base_cmd : Bytes → Option (List Bytes)
  decode_base_cmd s = if is_empty s then none else elim (json.unmarshal s) [
    | none ↦ none
    | some cmd ↦ if is_empty cmd then none else some cmd
  ]

  unfoldable pub base_command : Config → InspectResult → List Bytes
  unfolding decode_base_cmd fields get
  base_command cfg existing =
      if not (is_empty cfg.command)
      then fields cfg.command
      else elim (decode_base_cmd (or_text (get base_cmd_label existing.labels))) [
        | some b ↦ b
        | none ↦ existing.command
      ]

  unfoldable pub build_gobackup_spec :
      Config → InspectResult → List MountDef → List Bytes → List SecretExport → ContainerSpec
  unfolding base_command wrap_command_with_secrets merge_env put_all
  build_gobackup_spec cfg existing mounts env_vars secret_exports =
      let base = base_command cfg existing in
      let labels = put_all (put_all [] existing.labels) cfg.labels in
      record {
        image = if is_empty cfg.image then existing.image else cfg.image;
        command = wrap_command_with_secrets base secret_exports;
        env = merge_env (if is_empty cfg.env then existing.env else cfg.env) env_vars;
        labels =
            put base_cmd_label (json.marshal base)
              (put gobackup_component_label gobackup_component_value labels);
        name = existing.name;
        mounts = mounts;
        networks = if is_empty cfg.networks then existing.networks else cfg.networks;
      }

  -- what ensureGobackupContainer asks for, given the container that it found
  unfoldable pub engine_spec :
      Config → InspectResult → List MountDef → List Bytes → List SecretExport → ContainerSpec
  unfolding build_gobackup_spec merge_mounts
  engine_spec cfg existing extra_mounts env_vars secret_exports =
      build_gobackup_spec cfg existing (merge_mounts existing.mounts extra_mounts) env_vars
        secret_exports
