-- ===== src/Pipeline/Manage/Replace.antt =====
-- internal/pipeline/manage.go: finishing the replacement of the engine's container.
pub mod Recovery
pub mod Completion
use gobackup_docker.Base.{
  Bool, true, false, not, ◌&&◌, ◌||◌, Option, none, some, List, Bytes, str_eq, is_empty,
  if◌then◌else◌,
}
use gobackup_docker.Base.Dict.{Dict, get}
use gobackup_docker.Pipeline.Docker.{InspectResult, ContainerSpec}
use gobackup_docker.Pipeline.Manage.{
  gobackup_component_label, gobackup_component_value, replaces_label, or_text,
}

pub record PendingReplacement : Type 0 where
  pub old_id : Bytes
  pub spec : ContainerSpec

-- validate returned no error
unfoldable pub is_valid_pending : PendingReplacement → Bool
unfolding get
is_valid_pending p = not (
    is_empty p.old_id
    || is_empty p.spec.name
    || is_empty p.spec.image
    || not (str_eq (or_text (get gobackup_component_label p.spec.labels)) gobackup_component_value)
    || not (str_eq (or_text (get replaces_label p.spec.labels)) p.old_id))

-- the labels of a container that replaces the old one
unfoldable pub is_replacement : PendingReplacement → Dict Bytes → Bool
unfolding get
is_replacement p labels = not (
    not (str_eq (or_text (get replaces_label labels)) p.old_id)
    || not (str_eq (or_text (get gobackup_component_label labels)) gobackup_component_value))

-- the classes of errdefs that the code tells apart
pub data Failure : Type 0 where
  not_found : Failure
  not_modified : Failure
  other : Failure

pub data Result (A : Type 0) : Type 0 where
  ok : A → Result A
  failed : Failure → Result A

-- ContainerManager and the removal of the record's file, over the states `W` of the world outside.
-- A call may change the world even where it reports a failure.
pub record Manager (W : Type 0) : Type 0 where
  pub inspect : Bytes → W → W × Result InspectResult
  pub stop : Bytes → W → W × Option Failure
  pub remove : Bytes → W → W × Option Failure
  pub create : ContainerSpec → W → W × Result Bytes
  pub start : Bytes → W → W × Option Failure
  pub remove_record : W → W × Bool

-- resumeGobackupReplacement, each step behind the call that it looks at; `none` is an error.
module _ {W : Type 0} (mgr : Manager W) (p : PendingReplacement) where
  unfoldable pub cleared : Bytes → W × Bool → W × Option Bytes
  cleared id (w, true) = (w, some id)
  cleared id (w, false) = (w, none)

  unfoldable pub started : Bytes → W × Option Failure → W × Option Bytes
  unfolding cleared
  started id (w, none) = cleared id (mgr.remove_record w)
  started id (w, some not_modified) = cleared id (mgr.remove_record w)
  started id (w, some not_found) = (w, none)
  started id (w, some other) = (w, none)

  unfoldable pub created : W × Result Bytes → W × Option Bytes
  unfolding started
  created (w, ok id) = started id (mgr.start id w)
  created (w, failed e) = (w, none)

  unfoldable pub removed : W × Option Failure → W × Option Bytes
  unfolding created
  removed (w, none) = created (mgr.create p.spec w)
  removed (w, some not_found) = created (mgr.create p.spec w)
  removed (w, some not_modified) = (w, none)
  removed (w, some other) = (w, none)

  unfoldable pub stopped : Bytes → W × Option Failure → W × Option Bytes
  unfolding removed
  stopped id (w, none) = removed (mgr.remove id w)
  stopped id (w, some not_found) = removed (mgr.remove id w)
  stopped id (w, some not_modified) = removed (mgr.remove id w)
  stopped id (w, some other) = (w, none)

  unfoldable pub inspected : W × Result InspectResult → W × Option Bytes
  unfolding stopped
  inspected (w, ok existing) =
      if str_eq existing.id p.old_id
      then stopped existing.id (mgr.stop existing.id w)
      else if is_replacement p existing.labels
      then (if is_empty existing.id
          then created (mgr.create p.spec w)
          else started existing.id (mgr.start existing.id w))
      else (w, none)
  inspected (w, failed not_found) = created (mgr.create p.spec w)
  inspected (w, failed not_modified) = (w, none)
  inspected (w, failed other) = (w, none)

  unfoldable pub resume_replacement : W → W × Option Bytes
  unfolding inspected
  resume_replacement w = inspected (mgr.inspect p.spec.name w)
