-- ===== src/Pipeline/Discover.antt =====
-- internal/pipeline/reconcile.go: from the containers on the host to the document; the list of the
-- containers and the profiles that were read are given, `none` where reading them failed.
pub mod Sources
use gobackup_docker.Base.{
  ℕ, Bool, true, false, not, ◌&&◌, ◌||◌, Option, none, some, List, [], ◌∷◌, ◌++◌, Bytes, length,
  str_eq, is_empty, if◌then◌else◌,
}
use gobackup_docker.Base.Dict.{Dict, put}
use gobackup_docker.Tree.{Fields, keys}
use gobackup_docker.Labels.{Parsed, parse}
use gobackup_docker.Render.Merge.{Engine}
use gobackup_docker.Render.Model.{Source, Profiles, ResolvedCred, model_name, build_with_creds}
use gobackup_docker.Pipeline.Docker.{Container}

-- the fields of the reconciler's Config that this part reads
pub record Settings : Type 0 where
  pub instance_name : Bytes
  pub host_id : Bytes
  pub exposed_by_default : Bool

-- enabled, with a model, and not claimed by another instance
unfoldable pub is_admitted : Settings → Parsed → Bool
is_admitted cfg p =
    if not p.enabled || is_empty (keys p.model)
    then false
    else not (
        not (is_empty cfg.instance_name)
        && not (is_empty p.instance_name)
        && not (str_eq p.instance_name cfg.instance_name))

unfoldable pub as_source : Container → Parsed → Source
as_source c p = record {
  container = c.name;
  container_id = c.id;
  name = p.name;
  profile = p.profile;
  model = p.model;
  cred_refs = p.cred_refs;
}

module _ (cfg : Settings) where
  abbrev pub parsed : Container → Parsed
  parsed c = parse c.labels cfg.exposed_by_default

  abbrev pub name_of : Container → Bytes
  name_of c = model_name c.name (parsed c).name cfg.host_id

  -- the loop: the sources, and the container that each model's name leads to
  unfoldable pub collect_sources :
      List Source × Dict Bytes → List Container → List Source × Dict Bytes
  unfolding is_admitted as_source put
  collect_sources acc [] = acc
  collect_sources (sources, ids) (c ∷ containers) =
      collect_sources
        (if is_admitted cfg (parsed c)
          then (sources ++ as_source c (parsed c) ∷ [], put (name_of c) c.id ids)
          else (sources, ids))
        containers

  unfoldable pub render :
      Engine
      → Option (List Container)
      → Option Profiles
      → Option (Fields × ℕ × Dict Bytes × List ResolvedCred)
  unfolding collect_sources
  render engine none profiles = none
  render engine (some containers) none = none
  render engine (some containers) (some profiles) =
      let (sources, ids) = collect_sources ([], []) containers in
      let (doc, creds) = build_with_creds engine profiles cfg.host_id cfg.instance_name sources in
      some (doc, length sources, ids, creds)
