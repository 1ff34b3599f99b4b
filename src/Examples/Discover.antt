-- ===== src/Examples/Discover.antt =====
-- Discovery: the sources of two containers that give one model name.
use gobackup_docker.Base.{
  refl, ◌≡◌, true, some, List, [], ◌∷◌, Bytes, codes, str_eq, cut_prefix, split,
}
use gobackup_docker.Labels.{parse, parse_label, set_path}
use gobackup_docker.Tree.{obj, field, end, keys, insert}
use gobackup_docker.Render.Model.{model_name, Profiles}
use gobackup_docker.Base.Dict.{get}
use gobackup_docker.Pipeline.Docker.{Container}
use gobackup_docker.Pipeline.Discover.{Settings, collect_sources}
use gobackup_docker.Pipeline.Discover.Sources.{admitted_sources, last_id, collect_sources_lem}

abbrev settings : Settings
settings = record {
  instance_name = codes "main";
  host_id = codes "host";
  exposed_by_default = true;
}

abbrev container : Bytes → Container
container id = record {
  id = id;
  name = codes "app";
  labels =
      (codes "gobackup.name", codes "m") ∷ (codes "gobackup.archive.includes", codes "/data") ∷ [];
}

abbrev containers : List Container
containers = container (codes "one") ∷ container (codes "two") ∷ []

collect_sources_example :
    ((collect_sources settings ([], []) containers).0 ≡ admitted_sources settings containers)
    × (get (codes "m") (collect_sources settings ([], []) containers).1
        ≡ last_id settings (codes "m") containers)
collect_sources_example = collect_sources_lem settings (codes "m") containers

-- the name leads to the second container, whose model the document drops
second_container :
    get (codes "m") (collect_sources settings ([], []) containers).1 ≡ some (codes "two")
unfolding collect_sources get str_eq cut_prefix split parse parse_label keys set_path insert
    model_name
second_container = refl

abbrev profiles : Profiles
profiles = (codes "default", field (codes "storages") (obj end) end) ∷ []
