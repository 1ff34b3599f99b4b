-- ===== src/Pipeline/Manage/Ensure.antt =====
-- internal/pipeline/manage.go: the engine brought to its spec, with an interrupted replacement
-- finished first. Of an error only that it is one is modelled.
pub mod Laws
pub mod Safety
pub mod Steps
use gobackup_docker.Base.{
  Bool, true, false, not, ◌&&◌, ◌||◌, Option, none, some, List, [], ◌∷◌, Bytes, str_eq, is_empty,
  if◌then◌else◌,
}
use gobackup_docker.Base.Dict.{Dict, get, put}
use gobackup_docker.Container.{Config}
use gobackup_docker.Pipeline.Docker.{Container, InspectResult, ContainerSpec}
use gobackup_docker.Pipeline.Manage.{
  Json, EngineExtras, gobackup_component_label, gobackup_component_value, replaces_label, or_text,
  engine_spec, needs_recreate,
}
use gobackup_docker.Pipeline.Manage.Replace.{
  PendingReplacement, is_valid_pending, Result, ok, failed, Manager, resume_replacement,
}

-- os.ReadFile of the record
pub data RecordRead : Type 0 where
  missing : RecordRead
  unreadable : RecordRead
  content : Bytes → RecordRead

-- A manager with the listing of all containers, and the record's file; `write_record` is
-- apply.AtomicWrite.
pub record Host (W : Type 0) : Type 0 where
  pub manager : Manager W
  pub list_all : W → W × Result (List Container)
  pub read_record : W → W × RecordRead
  pub write_record : Bytes → W → W × Bool

-- encoding/json on a pending replacement
pub record Codec : Type 0 where
  pub encode : PendingReplacement → Option Bytes
  pub decode : Bytes → Option PendingReplacement

pub data Lookup : Type 0 where
  lookup_failed : Lookup
  absent : Lookup
  present : InspectResult → Lookup

-- the id of the first container with the component label
unfoldable pub engine_id : List Container → Option Bytes
unfolding get
engine_id [] = none
engine_id (c ∷ containers) =
    if str_eq (or_text (get gobackup_component_label c.labels)) gobackup_component_value
    then some c.id
    else engine_id containers

module _ {W : Type 0} (host : Host W) where
  unfoldable pub shown : W × Result InspectResult → W × Lookup
  shown (w, ok info) = (w, present info)
  shown (w, failed e) = (w, lookup_failed)

  unfoldable pub inspect_engine : W → Option Bytes → W × Lookup
  unfolding shown
  inspect_engine w none = (w, absent)
  inspect_engine w (some id) = shown (host.manager.inspect id w)

  unfoldable pub listed : W × Result (List Container) → W × Lookup
  unfolding inspect_engine engine_id
  listed (w, ok containers) = inspect_engine w (engine_id containers)
  listed (w, failed e) = (w, lookup_failed)

  unfoldable pub find_gobackup_container : W → W × Lookup
  unfolding listed
  find_gobackup_container w = listed (host.list_all w)

-- ensureGobackupContainer, each step behind the call that it looks at
module _ {W : Type 0} (host : Host W) (codec : Codec) (json : Json) (cfg : Config)
    (extras : EngineExtras) where
  abbrev pub Answer : Type 0
  Answer = W × Option (Bytes × Bool)

  unfoldable pub recreated : W × Option Bytes → Answer
  recreated (w, none) = (w, none)
  recreated (w, some id) = (w, some (id, true))

  unfoldable pub persisted : PendingReplacement → W × Bool → Answer
  unfolding recreated
  persisted p (w, true) = recreated (resume_replacement host.manager p w)
  persisted p (w, false) = (w, none)

  unfoldable pub encoded : PendingReplacement → W → Option Bytes → Answer
  unfolding persisted
  encoded p w none = (w, none)
  encoded p w (some text) = persisted p (host.write_record text w)

  -- the record of the replacement of a container by one of the spec
  abbrev pub pending_of : InspectResult → ContainerSpec → PendingReplacement
  pending_of existing spec = record {
    old_id = existing.id;
    spec = record spec { labels = put replaces_label existing.id spec.labels };
  }

  unfoldable pub recreate : W → PendingReplacement → Answer
  unfolding encoded
  recreate w p = if is_valid_pending p then encoded p w (codec.encode p) else (w, none)

  abbrev pub desired_spec : InspectResult → ContainerSpec
  desired_spec existing =
      engine_spec json cfg existing extras.extra_mounts extras.env_vars extras.secret_exports

  unfoldable pub compared : Bytes → W → InspectResult → Answer
  unfolding recreate
  compared recovered w existing =
      if needs_recreate existing (desired_spec existing) extras.env_vars
      then recreate w (pending_of existing (desired_spec existing))
      else (w, some (existing.id, not (is_empty recovered)))

  unfoldable pub synced : Bytes → W × Lookup → Answer
  unfolding compared
  synced recovered (w, lookup_failed) = (w, none)
  synced recovered (w, absent) = (w, none)
  synced recovered (w, present existing) = compared recovered w existing

  abbrev pub no_extras : Bool
  no_extras =
      is_empty extras.extra_mounts && is_empty extras.env_vars && is_empty extras.secret_exports

  unfoldable pub sync_engine : Bytes → W → Answer
  unfolding synced
  sync_engine recovered w =
      if no_extras
      then (w, some (recovered, not (is_empty recovered)))
      else synced recovered (find_gobackup_container host w)

  unfoldable pub recovered : W × Option Bytes → Answer
  unfolding sync_engine
  recovered (w, none) = (w, none)
  recovered (w, some id) = sync_engine id w

  unfoldable pub decoded : W → Option PendingReplacement → Answer
  unfolding recovered
  decoded w none = (w, none)
  decoded w (some p) =
      if is_valid_pending p then recovered (resume_replacement host.manager p w) else (w, none)

  unfoldable pub record_read : W × RecordRead → Answer
  unfolding decoded
  record_read (w, missing) = sync_engine [] w
  record_read (w, unreadable) = (w, none)
  record_read (w, content text) = decoded w (codec.decode text)

  unfoldable pub ensure_gobackup_container : W → Answer
  unfolding record_read
  ensure_gobackup_container w = record_read (host.read_record w)
