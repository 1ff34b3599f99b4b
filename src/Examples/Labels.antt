-- ===== src/Examples/Labels.antt =====
-- Labels: runs, and the results at an input.
use gobackup_docker.Labels.Paths.{get_path, parse_keeps}
use gobackup_docker.Tree.{str}
use gobackup_docker.Base.{
  to_lower, trim_space, str_eq, cut_prefix, split, true, false, some, [], ◌∷◌, ◌++◌, codes, refl,
  ◌≡◌,
}
use gobackup_docker.Labels.{parse_label, parse, prefix, LabelMap, cred_ref, parse_bool}

abbrev labels : LabelMap
labels =
    (codes "gobackup.name", codes "x")
    ∷ (prefix ++ codes "a.b", codes "v")
    ∷ (codes "gobackup.a.c", codes "w")
    ∷ (codes "gobackup.enable", codes "yes")
    ∷ []

parse_keeps_example :
    get_path (parse labels false).model (split (codes "a.b") b'.') ≡ some (str (codes "v"))
unfolding split str_eq cred_ref cut_prefix
parse_keeps_example =
    parse_keeps false ((codes "gobackup.name", codes "x") ∷ [])
      ((codes "gobackup.a.c", codes "w") ∷ (codes "gobackup.enable", codes "yes") ∷ [])
      (codes "a.b") (codes "v") refl (refl, (refl, tt))

parse_runs : ((parse labels false).enabled ≡ true) × ((parse labels false).name ≡ codes "x")
unfolding parse cut_prefix str_eq split trim_space to_lower parse_label parse_bool
parse_runs = (refl, refl)
