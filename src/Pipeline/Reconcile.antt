-- ===== src/Pipeline/Reconcile.antt =====
-- internal/pipeline/reconcile.go: one full pass. The status holds whether there is a last error and
-- not its text.
pub mod Prepare
pub mod Pass
pub mod Dollar
pub mod Recovery
pub mod Written
use gobackup_docker.Base.{
  ℕ, Bool, true, false, not, Option, none, some, List, [], ◌∷◌, ◌++◌, Bytes, codes, is_empty,
  if◌then◌else◌,
}
use gobackup_docker.Base.Dict.{Dict}
use gobackup_docker.Tree.{Fields, end, field, obj, lookup, insert, as_map}
use gobackup_docker.Container.{Config}
use gobackup_docker.Render.Merge.{Engine}
use gobackup_docker.Render.Model.{Profiles, ResolvedCred}
use gobackup_docker.Render.Escape.{dollar_sentinel_var, dollar_sentinel_value}
use gobackup_docker.Render.Escape.Config.{escape_config}
use gobackup_docker.Apply.{FileSystem, FileWriter, Applied, apply}
use gobackup_docker.Pipeline.Docker.{Container, InspectResult, MountDef}
use gobackup_docker.Pipeline.Volumes.{dedup_mounts_by_target}
use gobackup_docker.Pipeline.Manage.{Json, EngineExtras}
use gobackup_docker.Pipeline.Manage.Replace.{Result, ok, failed}
use gobackup_docker.Pipeline.Manage.Ensure.{Host, Codec, ensure_gobackup_container}
use gobackup_docker.Pipeline.Creds.{ResolvedEngineCreds, resolve_creds}
use gobackup_docker.Pipeline.Discover.{Settings, render}
use gobackup_docker.Pipeline.Phases.{model_names, process_archive_volumes, process_sqlite_volumes}

pub record Status : Type 0 where
  pub instance_name : Bytes
  pub host_id : Bytes
  pub exposed_by_default : Bool
  pub models : List Bytes
  pub containers : ℕ
  pub last_render_unix : ℕ
  pub last_changed : Bool
  pub has_last_error : Bool

-- what changes of the Reconciler
pub record Reconciler : Type 0 where
  pub writer : FileWriter
  pub status : Status

-- NewReconciler, WithContainerManager and WithGobackupSpec, of what changes: the rest is in World
unfoldable pub new_reconciler : Settings → FileWriter → Reconciler
new_reconciler cfg writer = record {
  writer = writer;
  status = record {
    instance_name = cfg.instance_name;
    host_id = cfg.host_id;
    exposed_by_default = cfg.exposed_by_default;
    models = [];
    containers = 0;
    last_render_unix = 0;
    last_changed = false;
    has_last_error = false;
  };
}

-- What a pass reaches outside: `managed` is whether there is a container manager, `list` and
-- `load_profiles` give `none` for an error, `marshal` is yaml.Marshal.
pub record World (W : Type 0) : Type 0 where
  pub managed : Bool
  pub host : Host W
  pub codec : Codec
  pub json : Json
  pub engine : Engine
  pub list : W → W × Option (List Container)
  pub load_profiles : W → W × Option Profiles
  pub files : FileSystem W
  pub is_yaml : Bytes → Bool
  pub marshal : Fields → Option Bytes
  pub now : W → ℕ

abbrev pub no_engine_extras : EngineExtras
no_engine_extras = record { extra_mounts = []; env_vars = []; secret_exports = [] }

-- the document to write, whether a '$' was escaped in it, and the mounts that it needs
pub record Prepared : Type 0 where
  pub document : Fields
  pub escaped : Bool
  pub mounts : List MountDef
  pub names : List Bytes

abbrev pub models_of : Fields → Fields
models_of doc = elim (as_map (lookup (codes "models") doc)) [ none ↦ end | some ms ↦ ms ]

abbrev pub inspected_info : Result InspectResult → Option InspectResult
inspected_info (ok info) = some info
inspected_info (failed e) = none

abbrev pub with_models : Fields → Fields → Fields
unfolding insert
with_models models doc = elim (as_map (lookup (codes "models") doc)) [
  | none ↦ doc
  | some ms ↦ insert (codes "models") (obj models) doc
]

-- phase 2: the document with the paths moved, its models, and the mounts
unfoldable pub moved :
    {W : Type 0}
    → (Bytes → W → W × Option InspectResult)
    → Dict Bytes
    → Fields
    → W
    → W × Fields × Fields × List MountDef
unfolding process_archive_volumes process_sqlite_volumes
moved inspect ids doc w =
    let archived = process_archive_volumes inspect ids (models_of doc) w in
    let sqlite = process_sqlite_volumes inspect ids archived.1 archived.0 in
    (sqlite.0, with_models sqlite.1 doc, sqlite.1, dedup_mounts_by_target (archived.2 ++ sqlite.2))

-- phase 2 and the escaping, with a container manager
unfoldable pub prepare :
    {W : Type 0} → (Bytes → W → W × Option InspectResult) → Dict Bytes → Fields → W → W × Prepared
unfolding moved escape_config model_names
prepare inspect ids doc w =
    let changed = moved inspect ids doc w in
    let escaped = escape_config changed.1 in
    (
      changed.0,
      record {
        document = escaped.0;
        escaped = escaped.1;
        mounts = changed.3;
        names = model_names changed.2;
      },
    )

-- without one: nothing is moved and nothing escaped
unfoldable pub as_rendered : Fields → Prepared
unfolding model_names
as_rendered doc = record {
  document = doc;
  escaped = false;
  mounts = [];
  names = model_names (models_of doc);
}

abbrev pub sentinel_vars : Bool → List Bytes
sentinel_vars true = (dollar_sentinel_var ++ (b'=' ∷ dollar_sentinel_value)) ∷ []
sentinel_vars false = []

-- phase 3
unfoldable pub extras_of :
    {W : Type 0}
    → (Bytes → W → W × Option InspectResult)
    → Prepared
    → List ResolvedCred
    → W
    → W × EngineExtras
unfolding resolve_creds
extras_of inspect p creds w =
    let out = resolve_creds inspect creds w in
    (
      out.0,
      record {
        extra_mounts = p.mounts ++ out.1.secret_mounts;
        env_vars = sentinel_vars p.escaped ++ out.1.env_vars;
        secret_exports = out.1.secret_exports;
      },
    )

-- The phases, each behind the call that it looks at; a pass answers whether it ended without error.
module _ {W : Type 0} (world : World W) (cfg : Settings) (spec : Config) where
  abbrev pub Pass : Type 0
  Pass = W × Reconciler × Bool

  abbrev pub with_error : Bool → Reconciler → Reconciler
  with_error b r = record r { status = record r.status { has_last_error = b } }

  unfoldable pub failing : W → Reconciler → Pass
  failing w r = (w, with_error true r, false)

  unfoldable pub succeeding : W → Reconciler → Pass
  succeeding w r = (w, with_error false r, true)

  abbrev pub ensure : EngineExtras → W → W × Option (Bytes × Bool)
  ensure extras w = ensure_gobackup_container world.host world.codec world.json spec extras w

  abbrev pub inspect_call : Bytes → W → W × Option InspectResult
  inspect_call id w =
      let answer = world.host.manager.inspect id w in (answer.0, inspected_info answer.1)

  unfoldable pub engine_synced : Reconciler → W × Option (Bytes × Bool) → Pass
  unfolding failing succeeding
  engine_synced r (w, none) = failing w r
  engine_synced r (w, some answer) = succeeding w r

  unfoldable pub sync_phase : Prepared → List ResolvedCred → W → Reconciler → Pass
  unfolding engine_synced extras_of
  sync_phase p creds w r =
      if world.managed
      then (let extras = extras_of inspect_call p creds w in
          engine_synced r (ensure extras.1 extras.0))
      else succeeding w r

  -- the reconciler after a write, or where none was needed
  abbrev pub updated : Prepared → ℕ → W → Reconciler → FileWriter → Bool → Reconciler
  updated p n w r writer changed = record {
    writer = writer;
    status = record r.status {
      models = p.names;
      containers = n;
      last_render_unix = world.now w;
      last_changed = changed;
    };
  }

  unfoldable pub applied : Prepared → ℕ → List ResolvedCred → Reconciler → Applied W → Pass
  unfolding sync_phase
  applied p n creds r (w, writer, none) = failing w (record r { writer = writer })
  applied p n creds r (w, writer, some changed) =
      sync_phase p creds w (updated p n w r writer changed)

  unfoldable pub marshalled :
      Prepared → ℕ → List ResolvedCred → W → Reconciler → Option Bytes → Pass
  unfolding applied apply
  marshalled p n creds w r none = failing w r
  marshalled p n creds w r (some text) =
      applied p n creds r (apply world.files world.is_yaml r.writer text w)

  abbrev pub prepared : W → Dict Bytes → Fields → W × Prepared
  prepared w ids doc =
      if world.managed then prepare inspect_call ids doc w else (w, as_rendered doc)

  unfoldable pub rendered :
      W → Reconciler → Option (Fields × ℕ × Dict Bytes × List ResolvedCred) → Pass
  unfolding marshalled prepare as_rendered
  rendered w r none = failing w r
  rendered w r (some (doc, n, ids, creds)) =
      let p = prepared w ids doc in marshalled p.1 n creds p.0 r (world.marshal p.1.document)

  unfoldable pub profiles_loaded : Reconciler → Option (List Container) → W × Option Profiles → Pass
  unfolding rendered render
  profiles_loaded r containers (w, profiles) =
      rendered w r (render cfg world.engine containers profiles)

  -- the profiles are read only where the containers were listed
  unfoldable pub containers_listed : Reconciler → W × Option (List Container) → Pass
  unfolding profiles_loaded
  containers_listed r (w, none) = failing w r
  containers_listed r (w, some containers) =
      profiles_loaded r (some containers) (world.load_profiles w)

  unfoldable pub engine_recovered : Reconciler → W × Option (Bytes × Bool) → Pass
  unfolding containers_listed
  engine_recovered r (w, none) = failing w r
  engine_recovered r (w, some answer) = containers_listed r (world.list w)

  unfoldable pub reconcile : W → Reconciler → Pass
  unfolding engine_recovered
  reconcile w r =
      if world.managed
      then engine_recovered r (ensure no_engine_extras w)
      else containers_listed r (world.list w)
