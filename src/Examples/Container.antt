-- ===== src/Examples/Container.antt =====
-- Labels passed on to the engine.
use gobackup_docker.Base.{
  none, [], ◌∷◌, ◌++◌, Bytes, codes, is_empty, if◌then◌else◌, ◌≡◌, refl, str_eq, cut_prefix,
}
use gobackup_docker.Base.Dict.{Dict, get}
use gobackup_docker.Container.{parse}
use gobackup_docker.Container.Passed.{parse_passes_labels}

abbrev labels : Dict Bytes
labels =
    (codes "gobackup_container.labels.team", codes "ops")
    ∷ (codes "gobackup_container.labels.", codes "lost")
    ∷ (codes "gobackup_container.image", codes "gobackup:2")
    ∷ []

parse_passes_labels_example : get (codes "team") (parse labels).labels ≡ (
    if is_empty (codes "team")
    then none
    else get (codes "gobackup_container.labels." ++ codes "team") labels)
unfolding get str_eq
parse_passes_labels_example = parse_passes_labels (codes "team") labels (refl, (refl, (refl, tt)))

-- a label below "image" is read as the image
image_below : (parse ((codes "gobackup_container.image.tag", codes "2") ∷ [])).image ≡ codes "2"
unfolding parse str_eq cut_prefix
image_below = refl
