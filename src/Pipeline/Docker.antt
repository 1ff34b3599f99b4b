-- ===== src/Pipeline/Docker.antt =====
-- internal/docker/client.go: the supervisor's views of containers, and the interface that the
-- pipeline has to Docker and to the file of the pending replacement.
pub mod Calls
pub mod Client
pub mod Opened
pub mod Shown
use gobackup_docker.Base.{Bool, List, Bytes, codes}
use gobackup_docker.Base.Dict.{Dict}

-- mount.Type is a string
abbrev pub type_bind : Bytes
type_bind = codes "bind"

abbrev pub type_tmpfs : Bytes
type_tmpfs = codes "tmpfs"

abbrev pub type_volume : Bytes
type_volume = codes "volume"

-- what the program reads of the SDK's container.MountPoint
pub record MountPoint : Type 0 where
  pub type : Bytes
  pub name : Bytes
  pub source : Bytes
  pub destination : Bytes
  pub rw : Bool

-- BindOptions is left out: the program never sets it.
pub record MountDef : Type 0 where
  pub type : Bytes
  pub source : Bytes
  pub target : Bytes
  pub read_only : Bool

-- the minimal view of a container
pub record Container : Type 0 where
  pub id : Bytes
  pub name : Bytes
  pub labels : Dict Bytes

-- Networks holds the names alone: the program reads nothing else of the map.
pub record InspectResult : Type 0 where
  pub id : Bytes
  pub name : Bytes
  pub image : Bytes
  pub command : List Bytes
  pub env : List Bytes
  pub labels : Dict Bytes
  pub mounts : List MountPoint
  pub networks : List Bytes

pub record ContainerSpec : Type 0 where
  pub image : Bytes
  pub command : List Bytes
  pub env : List Bytes
  pub labels : Dict Bytes
  pub name : Bytes
  pub mounts : List MountDef
  pub networks : List Bytes
