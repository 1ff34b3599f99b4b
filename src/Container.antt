-- ===== src/Container.antt =====
-- internal/container/config.go: the gobackup_container.* labels of the supervisor itself.
pub mod Passed
use gobackup_docker.Base.{
  none, some, List, [], ◌∷◌, ◌++◌, Bytes, codes, str_eq, split, cut_at, cut_prefix, trim_space,
  is_empty, if◌then◌else◌,
}
use gobackup_docker.Base.Dict.{Dict, put}

abbrev pub prefix : Bytes
prefix = codes "gobackup_container."

pub record Config : Type 0 where
  pub image : Bytes
  pub command : Bytes
  pub env : List Bytes
  pub networks : List Bytes
  pub labels : Dict Bytes

unfoldable pub trimmed_items : List Bytes → List Bytes
trimmed_items [] = []
trimmed_items (item ∷ raw) =
    let rest = trimmed_items raw in
    if is_empty (trim_space item) then rest else trim_space item ∷ rest

unfoldable pub split_csv : Bytes → List Bytes
unfolding trimmed_items
split_csv s = if is_empty s then [] else trimmed_items (split s b',')

-- the switch on the first segment
unfoldable pub parse_segment : Config → Bytes → Bytes → Bytes → Config
unfolding split_csv put
parse_segment cfg first tail v =
    if str_eq first (codes "image")
    then record cfg { image = v }
    else if str_eq first (codes "command")
    then record cfg { command = v }
    else if str_eq first (codes "networks")
    then record cfg { networks = split_csv v }
    else if str_eq first (codes "env")
    then (if is_empty tail then cfg else record cfg { env = cfg.env ++ (tail ++ (b'=' ∷ v)) ∷ [] })
    else if str_eq first (codes "labels")
    then (if is_empty tail then cfg else record cfg { labels = put tail v cfg.labels })
    else cfg

-- one round of the loop
unfoldable pub parse_label : Config → Bytes × Bytes → Config
unfolding parse_segment cut_at
parse_label cfg (k, v) = elim (cut_prefix k prefix) [
  | none ↦ cfg
  | some rest ↦
      if is_empty rest then cfg else parse_segment cfg (cut_at rest b'.').0 (cut_at rest b'.').1 v
]

unfoldable pub parse_labels : Config → Dict Bytes → Config
unfolding parse_label
parse_labels cfg [] = cfg
parse_labels cfg (l ∷ ls) = parse_labels (parse_label cfg l) ls

abbrev pub empty_config : Config
empty_config = record { image = []; command = []; env = []; networks = []; labels = [] }

unfoldable pub parse : Dict Bytes → Config
unfolding parse_labels
parse labels = parse_labels empty_config labels
