-- ===== src/Pipeline/Creds.antt =====
-- internal/pipeline/reconcile.go: the credentials of the client containers as additions to the
-- engine. The inspection of a container is a parameter.
pub mod Secrets
use gobackup_docker.Base.{
  Bool, true, false, not, ◌&&◌, Option, none, some, List, [], ◌∷◌, ◌++◌, Bytes, str_eq, cut_prefix,
  is_empty, if◌then◌else◌,
}
use gobackup_docker.Base.Dict.{Dict, get, put}
use gobackup_docker.Labels.{CredKind, cred_env, cred_file}
use gobackup_docker.Render.Model.{ResolvedCred}
use gobackup_docker.Pipeline.Docker.{MountPoint, MountDef, InspectResult, type_bind}
use gobackup_docker.Pipeline.Volumes.{build_dest_map, find_mount_for_path, mount_source, has_target}
use gobackup_docker.Pipeline.Manage.{SecretExport, secret_mount_prefix}

pub record ResolvedEngineCreds : Type 0 where
  pub env_vars : List Bytes
  pub secret_mounts : List MountDef
  pub secret_exports : List SecretExport

-- the value of the first entry that begins with the name and a '='
unfoldable pub lookup_env : List Bytes → Bytes → Option Bytes
unfolding cut_prefix
lookup_env [] name = none
lookup_env (e ∷ env) name = elim (cut_prefix e (name ++ b'=' ∷ [])) [
  | some val ↦ some val
  | none ↦ lookup_env env name
]

unfoldable pub add_env_cred :
    ResolvedCred → Option Bytes → ResolvedEngineCreds → ResolvedEngineCreds
add_env_cred c none out = out
add_env_cred c (some val) out = record out {
  env_vars = out.env_vars ++ (c.var ++ (b'=' ∷ val)) ∷ [];
}

abbrev pub secret_target : ResolvedCred → Bytes
secret_target c = secret_mount_prefix ++ c.var

-- the additions for a secret file whose mount has a source
unfoldable pub with_secret : ResolvedCred → Bytes → ResolvedEngineCreds → ResolvedEngineCreds
with_secret c src out = record out {
  secret_mounts =
      out.secret_mounts
      ++ (record { type = type_bind; source = src; target = secret_target c; read_only = true })
        ∷ [];
  secret_exports = out.secret_exports ++ (record { var = c.var; path = secret_target c }) ∷ [];
}

-- a target is seen when it is that of a secret mount so far
unfoldable pub add_file_cred :
    ResolvedCred → Option (MountPoint × Bytes) → ResolvedEngineCreds → ResolvedEngineCreds
unfolding with_secret has_target
add_file_cred c none out = out
add_file_cred c (some (mp, dst)) out =
    if is_empty (mount_source mp)
    then out
    else if has_target (secret_target c) out.secret_mounts
    then out
    else with_secret c (mount_source mp) out

-- the body of the loop, given what the inspection of the source has shown
unfoldable pub add_cred :
    ResolvedCred → Option InspectResult → ResolvedEngineCreds → ResolvedEngineCreds
unfolding add_env_cred add_file_cred lookup_env
add_cred c none out = out
add_cred c (some info) out = elim c.kind [
  | cred_env ↦ add_env_cred c (lookup_env info.env c.ref) out
  | cred_file ↦ add_file_cred c (find_mount_for_path c.ref (build_dest_map info.mounts)) out
]

abbrev pub no_creds : ResolvedEngineCreds
no_creds = record { env_vars = []; secret_mounts = []; secret_exports = [] }

-- an inspection is a call: it may change the world, and answer otherwise the next time
module _ {W : Type 0} (inspect : Bytes → W → W × Option InspectResult) where
  -- a failed inspection is not kept
  unfoldable pub kept_in :
      Dict InspectResult
      → Bytes
      → W × Option InspectResult
      → W × Dict InspectResult × Option InspectResult
  unfolding put
  kept_in inspects id (w, none) = (w, inspects, none)
  kept_in inspects id (w, some info) = (w, put id info inspects, some info)

  -- What is known of a container after a look into the cache and, where that has nothing, an
  -- inspection.
  unfoldable pub looked_up :
      Dict InspectResult → Bytes → W → W × Dict InspectResult × Option InspectResult
  unfolding get kept_in
  looked_up inspects id w = elim (get id inspects) [
    | some info ↦ (w, inspects, some info)
    | none ↦ kept_in inspects id (inspect id w)
  ]

  unfoldable pub resolve_loop :
      Dict InspectResult → ResolvedEngineCreds → List ResolvedCred → W → W × ResolvedEngineCreds
  unfolding looked_up add_cred
  resolve_loop inspects out [] w = (w, out)
  resolve_loop inspects out (c ∷ creds) w =
      let found = looked_up inspects c.container_id w in
      resolve_loop found.1 (add_cred c found.2 out) creds found.0

  unfoldable pub resolve_creds : List ResolvedCred → W → W × ResolvedEngineCreds
  unfolding resolve_loop
  resolve_creds creds w = resolve_loop [] no_creds creds w
