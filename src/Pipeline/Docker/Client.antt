-- ===== src/Pipeline/Docker/Client.antt =====
-- internal/docker/client.go: what the client makes of the SDK's answers, and of a spec for the SDK.
-- The calls are in Calls.
use gobackup_docker.Base.{
  Option, none, some, List, [], ◌∷◌, ◌++◌, map, Bytes, codes, cut_prefix, is_empty, if◌then◌else◌,
}
use gobackup_docker.Base.Dict.{Dict}
use gobackup_docker.Labels.{one_of}
use gobackup_docker.Pipeline.Docker.{MountPoint, MountDef, Container, InspectResult, ContainerSpec}

-- what the program reads of the SDK's container.Summary
pub record Summary : Type 0 where
  pub id : Bytes
  pub names : List Bytes
  pub labels : Dict Bytes

-- and of its container.InspectResponse, whose config and network settings are pointers
pub record RawConfig : Type 0 where
  pub image : Bytes
  pub cmd : List Bytes
  pub env : List Bytes
  pub labels : Dict Bytes

pub record RawContainer : Type 0 where
  pub id : Bytes
  pub name : Bytes
  pub mounts : List MountPoint
  pub config : Option RawConfig
  pub networks : Option (List Bytes)

-- what a creation is called with
pub record CreateRequest : Type 0 where
  pub config : RawConfig
  pub host_mounts : List MountDef
  pub network_config : Option (List Bytes)
  pub name : Bytes

-- strings.TrimPrefix
unfoldable pub trim_prefix : Bytes → Bytes → Bytes
unfolding cut_prefix
trim_prefix s p = elim (cut_prefix s p) [ none ↦ s | some r ↦ r ]

unfoldable pub primary_name : List Bytes → Bytes
unfolding trim_prefix
primary_name [] = []
primary_name (n ∷ names) = trim_prefix n (codes "/")

unfoldable pub as_container : Summary → Container
unfolding primary_name
as_container s = record { id = s.id; name = primary_name s.names; labels = s.labels }

-- the loop of List and of ListAll
unfoldable pub containers_of : List Summary → List Container
unfolding as_container
containers_of summaries = map as_container summaries

abbrev pub no_config : RawConfig
no_config = record { image = []; cmd = []; env = []; labels = [] }

abbrev pub or_no_config : Option RawConfig → RawConfig
or_no_config none = no_config
or_no_config (some c) = c

abbrev pub or_no_networks : Option (List Bytes) → List Bytes
or_no_networks none = []
or_no_networks (some ns) = ns

unfoldable pub inspect_result : RawContainer → InspectResult
unfolding trim_prefix
inspect_result raw =
    let config = or_no_config raw.config in
    record {
      id = raw.id;
      name = trim_prefix raw.name (codes "/");
      image = config.image;
      command = config.cmd;
      env = config.env;
      labels = config.labels;
      mounts = raw.mounts;
      networks = or_no_networks raw.networks;
    }

-- the keys of EndpointsConfig, which has each name once, behind those so far
unfoldable pub endpoints : List Bytes → List Bytes → List Bytes
unfolding one_of
endpoints names [] = names
endpoints names (n ∷ ns) = endpoints (if one_of n names then names else names ++ n ∷ []) ns

unfoldable pub create_request : ContainerSpec → CreateRequest
unfolding endpoints
create_request spec = record {
  config = record { image = spec.image; cmd = spec.command; env = spec.env; labels = spec.labels };
  host_mounts = spec.mounts;
  network_config = if is_empty spec.networks then none else some (endpoints [] spec.networks);
  name = spec.name;
}
